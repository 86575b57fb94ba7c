-- ===== src/Orch/Heard.antt =====
-- main.cpp: what a round that receives an ESTOP leaves, and what it keeps of an earlier one.
use powersuit.Base.{
  ℕ, ◌≡◌, ◌≢◌, refl, sym, subst, true, false, ◌&&◌, Option, none, some, List, [], ◌∷◌, ◌++◌, ◌==◌,
  All,
}
use powersuit.CanId.{unpack, cls_safety, t_estop, t_clear_estop}
use powersuit.SpiFrame.{Record}
use powersuit.Orch.Parser.{ParseResult, k_ok, k_idle, k_error, parse}
use powersuit.Orch.Process.{Process, Handed, receive, dispatch, dispatch_all, take_result}
use powersuit.Orch.Beats.{received, by_class}

-- No CLEAR_ESTOP is among the records.
abbrev pub NoClear : Record → Type 0
NoClear r = (((unpack r.id).cls == cls_safety) && ((unpack r.id).type == t_clear_estop)) ≡ false

-- An ESTOP of the safety class.
abbrev pub IsStop : Record → Type 0
IsStop r = ((unpack r.id).cls ≡ cls_safety) × ((unpack r.id).type ≡ t_estop)

not_none : (stop : Record) (after xs : List Record) → [] ≢ xs ++ stop ∷ after
not_none stop after [] e = cc
not_none stop after (x ∷ xs) e = cc

module _ {S A : Type 0} where
  dispatch_all-external :
      (o : Process S A) (rs : List Record)
      → o.external_latched ≡ true
      → All NoClear rs
      → (dispatch_all o rs).0.external_latched ≡ true
  unfolding dispatch_all
  dispatch_all-external o [] e q = e
  dispatch_all-external o (r ∷ rs) e q =
      dispatch_all-external (dispatch o r).0 rs
        (by_class (λ (x : Process S A × List Handed). x.0.external_latched ≡ true) o r (λ hs. e)
          refl (λ c. let no_clear = q.0 in cc))
        q.1

  pub receive-external :
      (o : Process S A) (now : ℕ) (rx : Option (List ℕ))
      → o.external_latched ≡ true
      → All NoClear (received o rx)
      → (receive o now rx).0.external_latched ≡ true
  unfolding receive received
  receive-external o now none e q = e
  receive-external o now (some buf) e q = taken (parse o.frame_parser buf).1 q
    where
      records_of : ParseResult → List Record
      records_of res = elim res [ k_ok rs flags seq ↦ rs | k_idle ↦ [] | k_error ↦ [] ]

      taken :
          (res : ParseResult)
          → All NoClear (records_of res)
          → (take_result
              (record o { frame_parser = (parse o.frame_parser buf).0 })
              now
              res).0.external_latched
            ≡ true
      taken k_error q = unfold take_result in e
      taken k_idle q = unfold take_result in e
      taken (k_ok rs flags seq) q =
          unfold take_result in
          dispatch_all-external
            (record o { frame_parser = (parse o.frame_parser buf).0; last_good_frame = now }) rs e q

  dispatch-stop :
      (o : Process S A) (r : Record) → IsStop r → (dispatch o r).0.external_latched ≡ true
  unfolding dispatch
  dispatch-stop o r (c, t) = rw (c, t) refl

  dispatch_all-stop :
      (o : Process S A) (before after : List Record) (stop : Record)
      → IsStop stop
      → All NoClear after
      → (dispatch_all o (before ++ stop ∷ after)).0.external_latched ≡ true
  unfolding dispatch_all
  dispatch_all-stop o [] after stop s q =
      dispatch_all-external (dispatch o stop).0 after (dispatch-stop o stop s) q
  dispatch_all-stop o (r ∷ rs) after stop s q = dispatch_all-stop (dispatch o r).0 rs after stop s q

  pub receive-stop :
      (o : Process S A) (now : ℕ) (rx : Option (List ℕ)) (before after : List Record)
      (stop : Record)
      → received o rx ≡ before ++ stop ∷ after
      → IsStop stop
      → All NoClear after
      → (receive o now rx).0.external_latched ≡ true
  unfolding receive received
  receive-stop o now none before after stop got s q = absurd (not_none stop after before got)
  receive-stop o now (some buf) before after stop got s q = taken (parse o.frame_parser buf).1 got
    where
      records_of : ParseResult → List Record
      records_of res = elim res [ k_ok rs flags seq ↦ rs | k_idle ↦ [] | k_error ↦ [] ]

      taken :
          (res : ParseResult)
          → records_of res ≡ before ++ stop ∷ after
          → (take_result
              (record o { frame_parser = (parse o.frame_parser buf).0 })
              now
              res).0.external_latched
            ≡ true
      taken k_error e = absurd (not_none stop after before e)
      taken k_idle e = absurd (not_none stop after before e)
      taken (k_ok rs flags seq) e =
          unfold take_result in
          subst
            (λ l.
              (dispatch_all
                (record o { frame_parser = (parse o.frame_parser buf).0; last_good_frame = now })
                l).0.external_latched
              ≡ true)
            (sym e) (dispatch_all-stop _ before after stop s q)
