-- ===== src/World/Chat.antt =====
-- A dialogue with the TV, and a loop that goes through it.
use mathlib.Core.Path.{subst}
use atv.Base.{
  ℕ, zero, suc, ◌<◌, ◌≡◌, refl, sym, ap, ◌∙◌, Bool, true, false, Option, none, List, [], ◌∷◌, All,
  length, arith,
}
use atv.Base.Exec.{Exec, Result, ok, err, returns}
use atv.Stream.{Codec}
use atv.Framing.{frame}
use atv.World.{Env, World}
use atv.World.Conn.{Conn}
use atv.World.Speech.{
  Speaks, behind, moved, behind-append, Carries, stream, answered, told, answered-position,
  answered-readings, told-answered, Speaks-append,
}

-- What is sent back for a message: its reply, and nothing where it is an error.
abbrev pub reply_of : {E M : Type 0} → Result E (Option M) → Option M
reply_of (ok reply) = reply
reply_of (err e) = none

module _ {S M E : Type 0} (hear : S → M → Result E (Option M) × S) where
  -- The replies to messages, one after the other.
  abbrev pub replies_to : S → List M → List (Option M)
  replies_to s [] = []
  replies_to s (msg ∷ msgs) = reply_of (hear s msg).0 ∷ replies_to (hear s msg).1 msgs

module _ {S M E : Type 0} (is_over : S → Bool) (hear : S → M → Result E (Option M) × S) where
  -- From a state on: what the TV says until the dialogue is over, the answers, and the last state.
  pub data Chats : S → List M → List (Option M) → S → Type 0 where
    over : (s : S) → is_over s ≡ true → Chats s [] [] s
    heard :
        (s last : S) (msg : M) (answer : Option M) (msgs : List M) (answers : List (Option M))
        → is_over s ≡ false
        → (hear s msg).0 ≡ ok answer
        → Chats (hear s msg).1 msgs answers last
        → Chats s (msg ∷ msgs) (answer ∷ answers) last

module _ (env : Env) (conn : Conn) {S M E : Type 0} (c : Codec M) (is_over : S → Bool)
    (hear : S → M → Result E (Option M) × S) where
  -- A loop that reads a message, answers it, and is over where the state says so. The flag tells
  -- whether a message was read before.
  pub record IsChat {R : Type 0} (loop : ℕ → S → Bool → Exec World E R) (result : S → R)
      : Type 0 where
    pub stops :
        (fuel : ℕ) (s : S) (got_any : Bool) (w : World)
        → is_over s ≡ true
        → loop (suc fuel) s got_any w ≡ returns (result s) w
    pub goes_on :
        (fuel : ℕ) (s : S) (got_any : Bool) (msg : M) (answer : Option M) (w : World)
        → is_over s ≡ false
        → (hear s msg).0 ≡ ok answer
        → Carries c msg
        → Speaks env conn w.position (frame c msg)
        → loop (suc fuel) s got_any w
          ≡ loop fuel
              (hear s msg).1
              true
              (answered c conn.id answer (moved w (behind w.position (frame c msg))))

  module _ {R : Type 0} (loop : ℕ → S → Bool → Exec World E R) (result : S → R)
      (I : IsChat loop result) where
    pub loop-Chats :
        (fuel : ℕ) (s last : S) (got_any : Bool) (msgs : List M) (answers : List (Option M))
        (w : World)
        → Chats is_over hear s msgs answers last
        → All (Carries c) msgs
        → Speaks env conn w.position (stream c msgs)
        → length msgs < fuel
        → (t : World) × (loop fuel s got_any w ≡ returns (result last) t)
          × (t.log ≡ told c conn.id answers w.log)
          × (t.position ≡ behind w.position (stream c msgs))
          × (t.readings ≡ w.readings)
    loop-Chats zero s last got_any msgs answers w chat carried h enough = absurd (omega arith)
    loop-Chats (suc fuel) s _ got_any _ _ w (over _ e) carried h enough =
        (w, I.stops fuel s got_any w e, refl, refl, refl)
    loop-Chats (suc fuel) s last got_any _ _ w (heard _ _ msg answer msgs answers e f chat) carried
          h enough =
        let size = frame c msg in
        let u = moved w (behind w.position size) in
        let here : (answered c conn.id answer u).position ≡ behind w.position size =
          answered-position c conn.id answer u in
        let (said, rest) = Speaks-append env conn size (stream c msgs) w.position h in
        let (t, run, log, position, clock) =
          loop-Chats fuel (hear s msg).1 last true msgs answers (answered c conn.id answer u) chat
            carried.1 (subst (λ p. Speaks env conn p (stream c msgs)) (sym here) rest)
            (omega arith) in
        (
          t,
          I.goes_on fuel s got_any msg answer w e f carried.0 said ∙ run,
          log ∙ told-answered c conn.id answer answers u,
          position
              ∙ ap (λ p. behind p (stream c msgs)) here
              ∙ sym (behind-append size (stream c msgs) w.position),
          clock ∙ answered-readings c conn.id answer u,
        )
