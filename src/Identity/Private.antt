-- ===== src/Identity/Private.antt =====
-- Who can read the key file.
use mathlib.Core.Path.{subst}
use text.Mathlib.TextLemmas.{append_cancel_left}
use atv.Base.{
  ℕ, ◌&&◌, ◌||◌, ◌<>◌, ◌≡◌, refl, ap, String, true, false, Option, none, some, List, [], str_eq,
  Bool-cases, Option-cases, inl, inr,
}
use atv.Base.Exec.{lift, map_err}
use atv.Base.Ends.{Ends, Keeps, Keeps-bind, Keeps-map_err, Keeps-lift}
use atv.World.{Env, World, FilePath, File, insert}
use atv.Config.{join, is_file, is_empty, ends_with_slash}
use atv.Base.Texts.{str_eq-true}
use atv.Identity.{
  mode_or, cannot_create, cannot_write, write_file, open_private, write_open, write_key_file,
  create_dir_all, make_identity, ensure_identity,
}
use atv.Identity.Closed.{create_dir_all-Keeps}
use atv.Identity.Generate.{generate_identity}

-- There is no file, or one of mode 0600.
abbrev pub Private : Option File → Type 0
Private none = Unit
Private (some file) = file.mode ≡ 384

names_differ : (front : String) → ¬ (front <> "key.pem" ≡ front <> "cert.pem")
names_differ front e =
    let same : true ≡ false =
      ap (λ (t : String). str_eq t "key.pem") (append_cancel_left front "key.pem" "cert.pem" e) in
    let no : ⊥ = cc in no

join_differ : (dir : FilePath) → ¬ (join dir "key.pem" ≡ join dir "cert.pem")
unfolding join
join_differ dir e = elim (Bool-cases (is_empty dir || ends_with_slash dir)) [
  | inl f ↦ names_differ dir (rw (f, join) at e)
  | inr f ↦
      names_differ "/"
        (append_cancel_left dir ("/" <> "key.pem") ("/" <> "cert.pem") (rw (f, join) at e))
]

join-str_eq : (dir : FilePath) → str_eq (join dir "key.pem") (join dir "cert.pem") ≡ false
join-str_eq dir = elim (Bool-cases (str_eq (join dir "key.pem") (join dir "cert.pem"))) [
  | inl e ↦ absurd (join_differ dir (str_eq-true (join dir "key.pem") (join dir "cert.pem") e))
  | inr e ↦ e
]

mode_or-Private : (o : Option File) → Private o → mode_or o 384 ≡ 384
mode_or-Private none h = refl
mode_or-Private (some file) h = h

module _ (env : Env) (key : FilePath) where
  abbrev pub KeyPrivate : World → Type 0
  KeyPrivate w = Private (w.files key)

  insert_elsewhere :
      (path : FilePath) (file : File) (files : FilePath → Option File)
      → str_eq key path ≡ false
      → Private (files key)
      → Private (insert path file files key)
  insert_elsewhere path file files e h = rw (e, insert) h

  insert-Private :
      (path : FilePath) (content : List ℕ) (files : FilePath → Option File)
      → Private (files key)
      → Private
          (insert path (record { content = content; mode = mode_or (files path) 384 }) files key)
  insert-Private path content files h = elim (Bool-cases (str_eq key path)) [
    | inl e ↦
        rw (e, insert)
          (mode_or-Private (files path) (subst (λ p. Private (files p)) (str_eq-true key path e) h))
    | inr e ↦ insert_elsewhere path _ files e h
  ]

  write_file-Private :
      (path : FilePath) (content : List ℕ)
      → str_eq key path ≡ false
      → Keeps KeyPrivate (write_file env path content)
  unfolding write_file
  write_file-Private path content differ = record {
    at = λ w h. elim (Option-cases (env.write_file_fault path)) [
      | inl e ↦ rw (e, write_file) (insert_elsewhere path _ w.files differ h)
      | inr (x, e) ↦ rw (e, write_file) h
    ];
  }

  open_private-Private : (path : FilePath) → Keeps KeyPrivate (open_private env path)
  unfolding open_private
  open_private-Private path = record {
    at = λ w h. elim (Option-cases (env.write_file_fault path)) [
      | inl e ↦ rw (e, open_private) (insert-Private path [] w.files h)
      | inr (x, e) ↦ rw (e, open_private) h
    ];
  }

  write_open-Private :
      (path : FilePath) (content : List ℕ) → Keeps KeyPrivate (write_open env path content)
  unfolding write_open
  write_open-Private path content = record {
    at = λ w h. elim (Option-cases (env.file_write_fault path)) [
      | inl e ↦ rw (e, write_open) (insert-Private path content w.files h)
      | inr (x, e) ↦ rw (e, write_open) h
    ];
  }

module _ (env : Env) (dir : FilePath) where
  abbrev P : World → Type 0
  P = KeyPrivate env (join dir "key.pem")

  make_identity-Private : Keeps P (make_identity env dir)
  unfolding make_identity write_key_file
  make_identity-Private =
      Keeps-bind P (map_err (cannot_create dir) (create_dir_all env dir)) _
        (Keeps-map_err P (cannot_create dir) _ (create_dir_all-Keeps env P dir))
        λ _.
          Keeps-bind P (lift (generate_identity env)) _ (Keeps-lift P (generate_identity env))
            λ (cert_pem, key_pem).
              Keeps-bind P _ _
                (Keeps-map_err P (cannot_write (join dir "cert.pem")) _ (
                  write_file-Private env (join dir "key.pem") (join dir "cert.pem") cert_pem
                    (join-str_eq dir)))
                λ _.
                  Keeps-bind P _ _
                    (Keeps-map_err P (cannot_create (join dir "key.pem")) _
                      (open_private-Private env (join dir "key.pem") (join dir "key.pem")))
                    λ _.
                      Keeps-map_err P (cannot_write (join dir "key.pem")) _
                        (write_open-Private env (join dir "key.pem") (join dir "key.pem") key_pem)

  -- Where no key file was there, or one that only its owner can read, the same holds after
  -- `ensure_identity`, however it ends.
  pub ensure_identity-Private :
      (w : World)
      → Private (w.files (join dir "key.pem"))
      → Ends
          (λ _ t. Private (t.files (join dir "key.pem")))
          (λ _ t. Private (t.files (join dir "key.pem")))
          (ensure_identity env dir w)
  unfolding ensure_identity
  ensure_identity-Private w h =
      elim (Bool-cases (is_file (join dir "cert.pem") w && is_file (join dir "key.pem") w)) [
        | inl e ↦ rw (e, ensure_identity) h
        | inr e ↦ rw (e, ensure_identity) (make_identity-Private.at w h)
      ]
