-- ===== src/Daemon/Rounds.antt =====
-- What holds behind a line's handler and behind the rest of the lines holds behind both.
use secretov.Prelude.{true, false, Bool, inl, inr}
use secretov.Prelude.Text.{Text}
use secretov.Prelude.Result.{Result-cases}
use secretov.Platform.{Platform}
use secretov.Io.{World}
use secretov.Store.{Store, Run}
use secretov.Daemon.{Served, after_reply}

module _ (p : Platform) (P : Store p → World → Type 0) where
  pub after_reply_keeps :
      (run : Run p Text) (writable goes_on : Bool) (rest : Store p → World → Served p)
      → P run.store run.world
      → P (rest run.store run.world).store (rest run.store run.world).world
      → P
          (after_reply p run writable goes_on rest).store
          (after_reply p run writable goes_on rest).world
  unfolding after_reply
  after_reply_keeps run true goes_on rest h k = elim (Result-cases run.result) [
    | inl (reply, e) ↦ rw (e, after_reply) k
    | inr (what, e) ↦ rw (e, after_reply) h
  ]
  after_reply_keeps run false true rest h k = elim (Result-cases run.result) [
    | inl (reply, e) ↦ rw (e, after_reply) k
    | inr (what, e) ↦ rw (e, after_reply) h
  ]
  after_reply_keeps run false false rest h k = elim (Result-cases run.result) [
    | inl (reply, e) ↦ rw (e, after_reply) h
    | inr (what, e) ↦ rw (e, after_reply) h
  ]
