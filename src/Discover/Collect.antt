-- ===== src/Discover/Collect.antt =====
-- The devices that a list of events leaves.
use Prim.Native.Nat.{Ordering}
use Prim.Native.String.{compare}
use text.Mathlib.TextEquality.{path_by_compare}
use text.Mathlib.TextPositions.{compare_refl}
use atv.Base.{
  ◌≡◌, refl, sym, ap, ◌∙◌, String, ◌<>◌, Option, none, some, List, [], ◌∷◌, All, str_eq,
  if◌then◌else◌, Bool-cases, Option-cases, inl, inr,
}
use atv.World.{Env, Address, ServiceInfo, ServiceEvent, resolved, other_event}
use atv.Discover.{Device, Devices, choose_address, device_of, device_key, on_resolved}
use atv.Base.Texts.{Ordering-cases}
use atv.Discover.Text.{compare_trans}
use atv.Discover.Table.{
  insert, get, into_values, Head, Ascending, insert-Ascending, get-insert_same, get-insert_other,
}

module _ (env : Env) where
  abbrev pub hear : ServiceEvent → Devices → Devices
  hear (resolved info) devices = on_resolved env info devices
  hear other_event devices = devices

  -- The events, oldest first.
  abbrev pub collect : List ServiceEvent → Devices → Devices
  collect [] devices = devices
  collect (e ∷ events) devices = collect events (hear e devices)

  -- The device that an event announces under a key.
  abbrev announced_at : String → ServiceInfo → Option Address → Option Device
  announced_at k info none = none
  announced_at k info (some a) =
      if str_eq k (device_key env (device_of info a)) then some (device_of info a) else none

  abbrev announced : String → ServiceEvent → Option Device
  announced k (resolved info) = announced_at k info (choose_address info.addresses)
  announced k other_event = none

  abbrev or : Option Device → Option Device → Option Device
  or none o = o
  or (some d) o = some d

  -- The device of the last event that announces one under the key.
  abbrev pub last_announced : String → List ServiceEvent → Option Device
  last_announced k [] = none
  last_announced k (e ∷ events) = or (last_announced k events) (announced k e)

  get-hear :
      (k : String) (e : ServiceEvent) (devices : Devices)
      → get k (hear e devices) ≡ or (announced k e) (get k devices)
  unfolding on_resolved
  get-hear k other_event devices = refl
  get-hear k (resolved info) devices = elim (Option-cases (choose_address info.addresses)) [
    | inl f ↦ rw (on_resolved, f) refl
    | inr (a, f) ↦ elim (Bool-cases (str_eq k (device_key env (device_of info a)))) [
      | inl g ↦
          rw (on_resolved, f, g)
            (get-insert_same k (device_key env (device_of info a)) (device_of info a) devices g)
      | inr g ↦
          rw (on_resolved, f, g)
            (get-insert_other k (device_key env (device_of info a)) (device_of info a) devices g)
    ]
  ]

  or_assoc : (a b c : Option Device) → or a (or b c) ≡ or (or a b) c
  or_assoc none b c = refl
  or_assoc (some d) b c = refl

  get-collect_onto :
      (k : String) (events : List ServiceEvent) (devices : Devices)
      → get k (collect events devices) ≡ or (last_announced k events) (get k devices)
  get-collect_onto k [] devices = refl
  get-collect_onto k (e ∷ events) devices =
      get-collect_onto k events (hear e devices)
      ∙ ap (λ (o : Option Device). or (last_announced k events) o) (get-hear k e devices)
      ∙ or_assoc (last_announced k events) (announced k e) (get k devices)

  or-none : (o : Option Device) → or o none ≡ o
  or-none none = refl
  or-none (some d) = refl

  -- Under a key stands the device of the last event that announced one there.
  pub get-collect :
      (k : String) (events : List ServiceEvent)
      → get k (collect events []) ≡ last_announced k events
  unfolding get
  get-collect k events = get-collect_onto k events [] ∙ or-none (last_announced k events)

  -- The key is the address, a colon and the port.
  abbrev pub IsKeyed : String × Device → Type 0
  IsKeyed (k, d) = k ≡ d.host <> ":" <> env.i32_text d.port

  insert-IsKeyed :
      (d : Device) (devices : Devices)
      → All IsKeyed devices
      → All IsKeyed (insert (device_key env d) d devices)
  unfolding insert device_key
  insert-IsKeyed d [] h = (refl, tt)
  insert-IsKeyed d ((k, d') ∷ rest) h = elim (Ordering-cases (compare (device_key env d) k)) [
    | inl f ↦ rw (insert, f) (refl, h)
    | inr (inl f) ↦ rw (insert, f) (sym (path_by_compare (device_key env d) k f), h.1)
    | inr (inr f) ↦ rw (insert, f) (h.0, insert-IsKeyed d rest h.1)
  ]

  abbrev IsOrdered : Devices → Type 0
  IsOrdered devices = Ascending devices × All IsKeyed devices

  hear-IsOrdered :
      (e : ServiceEvent) (devices : Devices) → IsOrdered devices → IsOrdered (hear e devices)
  unfolding on_resolved
  hear-IsOrdered other_event devices h = h
  hear-IsOrdered (resolved info) devices h = elim (Option-cases (choose_address info.addresses)) [
    | inl f ↦ rw (on_resolved, f) h
    | inr (a, f) ↦
        rw (on_resolved, f)
          (
            insert-Ascending (device_key env (device_of info a)) (device_of info a) devices h.0,
            insert-IsKeyed (device_of info a) devices h.1,
          )
  ]

  collect-IsOrdered :
      (events : List ServiceEvent) (devices : Devices)
      → IsOrdered devices
      → IsOrdered (collect events devices)
  collect-IsOrdered [] devices h = h
  collect-IsOrdered (e ∷ events) devices h =
      collect-IsOrdered events (hear e devices) (hear-IsOrdered e devices h)

  -- Two announced devices differ in the address or in the port.
  abbrev IsOther : Device → Device → Type 0
  IsOther d d' = ¬ ((d.host ≡ d'.host) × (d.port ≡ d'.port))

  -- Each device differs from all behind it.
  abbrev pub Distinct : List Device → Type 0
  Distinct [] = Unit
  Distinct (d ∷ devices) = All (IsOther d) devices × Distinct devices

  IsKeyed-IsOther :
      (k k' : String) (d d' : Device)
      → IsKeyed (k, d)
      → IsKeyed (k', d')
      → compare k k' ≡ Ordering.lt
      → IsOther d d'
  IsKeyed-IsOther k k' d d' e e' less (host, port) =
      let same : k ≡ k' = rw (e, e', host, port) refl in
      let equal = compare_refl k' in let no : ⊥ = cc in no

  all_IsOther :
      (k : String) (d : Device) (devices : Devices)
      → IsKeyed (k, d)
      → All IsKeyed devices
      → Head k devices
      → Ascending devices
      → All (IsOther d) (into_values devices)
  all_IsOther k d [] e h first rest = tt
  all_IsOther k d ((k', d') ∷ []) e h first rest = (IsKeyed-IsOther k k' d d' e h.0 first, tt)
  all_IsOther k d ((k', d') ∷ (j, c) ∷ devices) e h first rest = (
    IsKeyed-IsOther k k' d d' e h.0 first,
    all_IsOther k d ((j, c) ∷ devices) e h.1 (compare_trans k k' j first rest.0) rest.1,
  )

  ordered-Distinct : (devices : Devices) → IsOrdered devices → Distinct (into_values devices)
  ordered-Distinct [] h = tt
  ordered-Distinct ((k, d) ∷ devices) ((first, rest), (e, h)) =
      (all_IsOther k d devices e h first rest, ordered-Distinct devices (rest, h))

  -- What is listed: the keys rise strictly, each device lies under its own `host:port`, and no two
  -- devices have the same address and port.
  abbrev pub IsTable : Devices → Type 0
  IsTable devices = Ascending devices × All IsKeyed devices × Distinct (into_values devices)

  -- Whatever is heard, the keys of the devices rise strictly, each device lies under its address, a
  -- colon and its port, and no two of the devices listed have the same address and port.
  pub collect-IsTable : (events : List ServiceEvent) → IsTable (collect events [])
  collect-IsTable events =
      let h = collect-IsOrdered events [] (tt, tt) in
      (h.0, h.1, ordered-Distinct (collect events []) h)
