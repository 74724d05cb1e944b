-- ===== src/Evaluation/Baseline.antt =====
-- The strategy "no_action": a run that only holds.
use kronos_stock.Common.{
  ℕ, ◌≡◌, refl, sym, subst, List, [], ◌∷◌, arith, All, All-append, Returns, IfOk, raise_if-IfOk,
  raise_if-IfOk_then, >>=-IfOk, Returns-IfOk, >>=-Returns,
}
use kronos_stock.Common.Int.{ℤ, pos, pos_part, ◌-ℤ◌, scale, floor_div, max_ℤ, int_laws, pos-scale}
use kronos_stock.Symbols.{get, hold}
use kronos_stock.Evaluation.Records.{
  EvaluationConfig, IsConfig, StrategyResult, SessionState, negative_state, zero_division,
}
use kronos_stock.Evaluation.Run.{
  Entry, Track, desired_quantity, nav_of, trade, observe, settle, step, run_from, start, run,
  report_track, divides_by_zero, session_state, ending_nav,
}
use kronos_stock.Evaluation.Soundness.{IsSound, IsPriced, run_from-IsSound, start-IsSound}

-- Nothing has happened to the account.
record IsIdle (c : EvaluationConfig) (t : Track) : Type 0 where
  cash_kept : t.cash ≡ pos c.initial_cash_krw
  none_005930 : t.positions.at_005930 ≡ pos 0
  none_000660 : t.positions.at_000660 ≡ pos 0
  no_fills : t.fills ≡ []
  peak_kept : t.peak ≡ pos c.initial_cash_krw
  no_drawdown : t.max_dd ≡ pos 0
  no_turnover : t.turnover ≡ 0
  navs_kept : All (λ (s : SessionState). s.nav_krw ≡ pos c.initial_cash_krw) t.states

abbrev pub Holds : Entry → Type 0
Holds e = e.action ≡ hold

hold_keeps_quantity :
    (c : EvaluationConfig) (t : Track) (e : Entry)
    → Holds e
    → desired_quantity c t e -ℤ get t.positions e.observation.symbol ≡ pos 0
unfolding desired_quantity
hold_keeps_quantity c t e h = rw (h, desired_quantity) (omega int_laws)

idle_nav : (c : EvaluationConfig) (t : Track) → IsIdle c t → nav_of t ≡ pos c.initial_cash_krw
unfolding nav_of
idle_nav c t i =
    rw (i.cash_kept, i.none_005930, i.none_000660, pos-scale, pos-scale) (omega int_laws)

idle_drawdown :
    (n : ℕ)
    → max_ℤ (pos 0) (
        floor_div
          (scale (max_ℤ (pos n) (pos n) -ℤ pos n) 10_000)
          (pos_part (max_ℤ (pos n) (pos n))))
      ≡ pos 0
unfolding floor_div scale ◌-ℤ◌
idle_drawdown n = ground arith

settle-IsIdle :
    (c : EvaluationConfig) (e : Entry) (t : Track) → IsIdle c t → IfOk (settle e t) (IsIdle c)
unfolding settle session_state
settle-IsIdle c e t i =
    let nav = idle_nav c t i in
    raise_if-IfOk (IsIdle c) _ negative_state _ (record {
      cash_kept = i.cash_kept;
      none_005930 = i.none_005930;
      none_000660 = i.none_000660;
      no_fills = i.no_fills;
      peak_kept = rw (i.peak_kept, nav) (ground arith);
      no_drawdown = rw (i.no_drawdown, i.peak_kept, nav) (idle_drawdown c.initial_cash_krw);
      no_turnover = i.no_turnover;
      navs_kept =
          All-append (λ (s : SessionState). s.nav_krw ≡ pos c.initial_cash_krw) t.states
            (session_state e t ∷ []) i.navs_kept (nav, tt);
    })

step-IsIdle :
    (c : EvaluationConfig) (e : Entry) (t : Track)
    → Holds e
    → IsIdle c t
    → IfOk (step c e t) (IsIdle c)
unfolding step
step-IsIdle c e t h i = raise_if-IfOk_then (IsIdle c) (divides_by_zero e) zero_division _ (
    subst (λ d. IfOk (settle e (trade c e d (observe e t))) (IsIdle c))
      (sym (hold_keeps_quantity c (observe e t) e h))
      (settle-IsIdle c e (observe e t) (unfold observe in ground arith)))

run_from-IsIdle :
    (c : EvaluationConfig) (es : List Entry) (t : Track)
    → All Holds es
    → IsIdle c t
    → IfOk (run_from c es t) (IsIdle c)
unfolding run_from
run_from-IsIdle c [] t h i = i
run_from-IsIdle c (e ∷ es) t h i =
    >>=-IfOk (IsIdle c) (IsIdle c) (step c e t) (run_from c es) (step-IsIdle c e t h.0 i)
      (λ u. run_from-IsIdle c es u h.1)

-- A result in which nothing was traded, gained or lost.
pub record IsFlat (c : EvaluationConfig) (r : StrategyResult) : Type 0 where
  pub cash_kept : r.ending_cash_krw ≡ pos c.initial_cash_krw
  pub nothing_held : r.ending_position_quantity ≡ pos 0
  pub nav_kept : r.ending_nav_krw ≡ pos c.initial_cash_krw
  pub no_return : r.return_bps ≡ pos 0
  pub no_turnover : r.turnover_bps ≡ 0
  pub no_drawdown : r.max_drawdown_bps ≡ pos 0
  pub no_fills : r.fills ≡ []

ending_nav_kept :
    (n : ℤ) (states : List SessionState)
    → All (λ (s : SessionState). s.nav_krw ≡ n) states
    → ending_nav n states ≡ n
unfolding ending_nav
ending_nav_kept n [] h = refl
ending_nav_kept n (s ∷ ss) h = rw h.0 (ending_nav_kept n ss h.1)

no_gain : (n : ℕ) → floor_div (scale (pos n -ℤ pos n) 10_000) n ≡ pos 0
unfolding floor_div scale ◌-ℤ◌
no_gain n = ground arith

report_track-IsFlat :
    (c : EvaluationConfig) (es : List Entry) (t : Track)
    → IsIdle c t
    → IsFlat c (report_track c es t)
unfolding report_track
report_track-IsFlat c es t i =
    let nav = ending_nav_kept (pos c.initial_cash_krw) t.states i.navs_kept in
    record {
      cash_kept = i.cash_kept;
      nothing_held = rw (i.none_005930, i.none_000660) (omega int_laws);
      nav_kept = nav;
      no_return = rw nav (no_gain c.initial_cash_krw);
      no_turnover = rw i.no_turnover (grind arith);
      no_drawdown = i.no_drawdown;
      no_fills = i.no_fills;
    }

-- For every configuration that can be built, a schedule of positive prices whose actions are all
-- HOLD (the track "no_action") returns a result with the initial cash and value, no position, no
-- fill, and no return, turnover or drawdown.
pub hold_run-IsFlat :
    (c : EvaluationConfig) (schedule : List Entry)
    → IsConfig c
    → All IsPriced schedule
    → All Holds schedule
    → Returns (run c schedule) (IsFlat c)
unfolding run
hold_run-IsFlat c schedule h p holds =
    let begin : IsIdle c (start c) = unfold start in ground arith in
    let sound = run_from-IsSound c schedule (start c) p (start-IsSound c h) in
    >>=-Returns (IsIdle c) (IsFlat c) (run_from c schedule (start c)) _
      (Returns-IfOk IsSound _ (run_from c schedule (start c)) sound
        (run_from-IsIdle c schedule (start c) holds begin))
      (report_track-IsFlat c schedule)
