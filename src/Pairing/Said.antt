-- ===== src/Pairing/Said.antt =====
-- What pairing tells the TV and the user: the stages of the command.
use atv.Base.{
  ℕ, suc, ◌≡◌, String, Bool, true, false, not, ◌==◌, ◌⊎◌, inl, inr, Option, none, some, List, [],
  ◌∷◌, All, is_some, if◌then◌else◌, Option-cases,
}
use atv.Base.Exec.{Result, ok, err}
use atv.Base.Ends.{Ends}
use atv.Error.{AtvError}
use atv.Framing.{frame, write_message}
use atv.Proto.Polo.{OuterMessage, status_ok}
use atv.World.{Env, World, Event, eprinted, sent}
use atv.World.Conn.{Conn, conn_write}
use atv.Pairing.{
  PairingFlow, handle, send, initial_message, options_message, configuration_message,
  secret_message, clean_code,
}
use atv.Pairing.Secret.{compute_pairing_secret}

pub data Said : Type 0 where
  wrote : List ℕ → Said
  asked : String → Said

-- What was written to the TV and what was shown to the user, the newest first.
abbrev pub said : List Event → List Said
said [] = []
said (sent id bytes ∷ log) = wrote bytes ∷ said log
said (eprinted line ∷ log) = asked line ∷ said log
said (_ ∷ log) = said log

-- The messages before the code is known.
pub data IsOpening : OuterMessage → Type 0 where
  opens : IsOpening initial_message
  offers : IsOpening options_message
  configures : IsOpening configuration_message

abbrev pub prompt : String
prompt = "Enter the 6-digit code shown on the TV:"

abbrev pub Reply : Result AtvError (Option OuterMessage) → Type 0
Reply (ok none) = Unit
Reply (ok (some msg)) = IsOpening msg
Reply (err e) = Unit

abbrev pub Replies : Result AtvError (Option OuterMessage) × PairingFlow → Type 0
Replies (r, flow) = Reply r

if-Replies :
    (b : Bool) (p q : Result AtvError (Option OuterMessage) × PairingFlow)
    → Replies p
    → Replies q
    → Replies (if b then p else q)
if-Replies true p q h k = h
if-Replies false p q h k = k

module _ (env : Env) where
  pub handle-Replies : (flow : PairingFlow) (msg : OuterMessage) → Replies (handle env flow msg)
  unfolding handle
  handle-Replies flow msg = if-Replies (not (msg.status == status_ok)) _ _ tt (
      if-Replies (is_some msg.pairing_request_ack) _ _ offers (
        if-Replies (is_some msg.options) _ _ configures (
          if-Replies (is_some msg.configuration_ack) _ _ tt
            (if-Replies (is_some msg.secret_ack) _ _ tt tt))))

  -- The messages `msgs` were written, the newest first.
  abbrev pub with_frames : List OuterMessage → List Said → List Said
  with_frames [] before = before
  with_frames (msg ∷ msgs) before = wrote (frame env.polo msg) ∷ with_frames msgs before

  module _ (before : List Said) where
    -- Only opening messages were written.
    abbrev pub Opening : World → Type 0
    Opening t =
        (msgs : List OuterMessage) × All IsOpening msgs × (said t.log ≡ with_frames msgs before)

    -- Then the user was asked for the code.
    abbrev pub Asked : World → Type 0
    Asked t =
        (msgs : List OuterMessage) × All IsOpening msgs
        × (said t.log ≡ asked prompt ∷ with_frames msgs before)

    -- Then one message was written, the secret of the code that the user typed.
    abbrev pub Revealed : World → Type 0
    Revealed t =
        (msgs : List OuterMessage) × All IsOpening msgs
        × ((line client server secret : List ℕ) × (env.stdin_line ≡ ok line)
            × (compute_pairing_secret env client server (clean_code line) ≡ ok secret)
            × (said t.log
                ≡ wrote (frame env.polo (secret_message secret))
                  ∷ asked prompt
                  ∷ with_frames msgs before))

    -- How pairing can fail: before the code was asked for, before it was used, or after.
    abbrev pub Failed : AtvError → World → Type 0
    Failed e t = Opening t ⊎ (Asked t ⊎ Revealed t)

    -- A write that fails is not logged.
    pub send-Ends :
        (P Q : World → Type 0) (conn : Conn) (msg : OuterMessage)
        → ((w : World) → P w → P (record w { writes = suc w.writes }))
        → ((w : World)
            → P w
            → Q (record w {
              writes = suc w.writes;
              log = sent conn.id (frame env.polo msg) ∷ w.log;
            }))
        → (w : World) → P w
        → Ends (λ _ t. Q t) (λ _ t. P t) (send env conn msg w)
    unfolding send write_message conn_write
    send-Ends P Q conn msg fault done w h = elim (Option-cases (env.write_fault w.writes)) [
      | inl e ↦ rw (e, conn_write) (done w h)
      | inr (x, e) ↦ rw (e, conn_write) (fault w h)
    ]
