-- ===== src/Discover/Table.antt =====
-- `BTreeMap<String, V>`: the entries in the order of their keys.
use Prim.Native.Nat.{Ordering}
use Prim.Native.String.{String, compare}
use mathlib.Core.Path.{◌≡◌, sym, ap, ◌∙◌}
use mathlib.Core.Bool.{true, false}
use mathlib.Core.Logic.{inl, inr}
use mathlib.Core.Option.{Option, none, some}
use mathlib.Core.List.{List, [], ◌∷◌}
use text.Mathlib.TextEquality.{path_by_compare}
use atv.Base.Texts.{Ordering-cases, is_eq, str_eq_refl, str_eq-true}
use atv.Base.{if◌then◌else◌, str_eq}
use atv.Discover.Text.{swap, compare-swap}

module _ {V : Type 0} where
  -- `BTreeMap::insert`: a key that is there keeps its place and gets the new value.
  unfoldable pub insert : String → V → List (String × V) → List (String × V)
  insert k v [] = (k, v) ∷ []
  insert k v ((k', v') ∷ rest) =
      let more = insert k v rest in
      elim (compare k k') [
        | Ordering.lt ↦ (k, v) ∷ (k', v') ∷ rest
        | Ordering.eq ↦ (k', v) ∷ rest
        | Ordering.gt ↦ (k', v') ∷ more
      ]

  unfoldable pub get : String → List (String × V) → Option V
  get k [] = none
  get k ((k', v') ∷ rest) = let more = get k rest in if str_eq k k' then some v' else more

  abbrev pub into_values : List (String × V) → List V
  into_values [] = []
  into_values ((k, v) ∷ rest) = v ∷ into_values rest

  -- `k` is less than the first key.
  abbrev pub Head : String → List (String × V) → Type 0
  Head k [] = Unit
  Head k ((k', v) ∷ rest) = compare k k' ≡ Ordering.lt

  -- The keys rise strictly.
  abbrev pub Ascending : List (String × V) → Type 0
  Ascending [] = Unit
  Ascending ((k, v) ∷ rest) = Head k rest × Ascending rest

  Head-insert :
      (j k : String) (v : V) (m : List (String × V))
      → compare j k ≡ Ordering.lt
      → Head j m
      → Head j (insert k v m)
  unfolding insert
  Head-insert j k v [] e h = e
  Head-insert j k v ((k', v') ∷ rest) e h = elim (Ordering-cases (compare k k')) [
    | inl f ↦ rw (insert, f) e
    | inr (inl f) ↦ rw (insert, f) h
    | inr (inr f) ↦ rw (insert, f) h
  ]

  -- An entry is put where it belongs.
  pub insert-Ascending :
      (k : String) (v : V) (m : List (String × V)) → Ascending m → Ascending (insert k v m)
  unfolding insert
  insert-Ascending k v [] h = (tt, tt)
  insert-Ascending k v ((k', v') ∷ rest) h = elim (Ordering-cases (compare k k')) [
    | inl f ↦ rw (insert, f) (f, h)
    | inr (inl f) ↦ rw (insert, f) h
    | inr (inr f) ↦
        let after : compare k' k ≡ Ordering.lt = compare-swap k k' ∙ ap swap f in
        rw (insert, f) (Head-insert k' k v rest after h.0, insert-Ascending k v rest h.1)
  ]

  get_hit :
      (k k' : String) (v : V) (rest : List (String × V))
      → str_eq k k' ≡ true
      → get k ((k', v) ∷ rest) ≡ some v
  unfolding get
  get_hit k k' v rest e = ap (λ b. if b then some v else get k rest) e

  get_miss :
      (k k' : String) (v : V) (rest : List (String × V))
      → str_eq k k' ≡ false
      → get k ((k', v) ∷ rest) ≡ get k rest
  unfolding get
  get_miss k k' v rest e = ap (λ b. if b then some v else get k rest) e

  get-insert : (k : String) (v : V) (m : List (String × V)) → get k (insert k v m) ≡ some v
  unfolding insert
  get-insert k v [] = get_hit k k v [] (str_eq_refl k)
  get-insert k v ((k', v') ∷ rest) = elim (Ordering-cases (compare k k')) [
    | inl f ↦ rw (insert, f) (get_hit k k v ((k', v') ∷ rest) (str_eq_refl k))
    | inr (inl f) ↦ rw (insert, f) (get_hit k k' v rest (ap is_eq f))
    | inr (inr f) ↦
        rw (insert, f) (get_miss k k' v' (insert k v rest) (ap is_eq f) ∙ get-insert k v rest)
  ]

  pub get-insert_same :
      (j k : String) (v : V) (m : List (String × V))
      → str_eq j k ≡ true
      → get j (insert k v m) ≡ some v
  get-insert_same j k v m e = rw (str_eq-true j k e) (get-insert k v m)

  pub get-insert_other :
      (j k : String) (v : V) (m : List (String × V))
      → str_eq j k ≡ false
      → get j (insert k v m) ≡ get j m
  unfolding insert get
  get-insert_other j k v [] e = get_miss j k v [] e
  get-insert_other j k v ((k', v') ∷ rest) e = elim (Ordering-cases (compare k k')) [
    | inl f ↦ rw (insert, f) (get_miss j k v ((k', v') ∷ rest) e)
    | inr (inl f) ↦
        let miss : str_eq j k' ≡ false =
          ap (λ (t : String). str_eq j t) (sym (path_by_compare k k' f)) ∙ e in
        rw (insert, f) (get_miss j k' v rest miss ∙ sym (get_miss j k' v' rest miss))
    | inr (inr f) ↦
        rw (insert, f)
          (ap (λ (o : Option V). if str_eq j k' then some v' else o)
            (get-insert_other j k v rest e))
  ]
