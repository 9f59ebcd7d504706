-- ===== src/Breaker/Consecutive.antt =====
-- trigger/consecutive.go: the counter of errors in a row, over many reports.
use polaris_go.Base.{
  ℕ, suc, ◌+◌, ◌%◌, ◌<◌, ◌≡◌, refl, Bool, true, false, List, [], ◌∷◌, ◌==◌, if◌then◌else◌, arith,
}
use polaris_go.Base.Int.{u32_mod}
use polaris_go.Breaker.Trigger.{ConsecutiveCounter, new_consecutive_counter, report_consecutive}

-- Reports in a row, and how many of them call `CloseToOpen`.
unfoldable pub report_all : ConsecutiveCounter → List Bool → ConsecutiveCounter × ℕ
report_all c [] = (c, 0)
report_all c (r ∷ rs) =
    let (c', opens) = report_consecutive c r in
    let (c'', n) = report_all c' rs in (c'', if opens then suc n else n)

-- Whether `n` errors come in a row, `run` of them already counted.
unfoldable pub has_run : ℕ → ℕ → List Bool → Bool
has_run n run [] = false
has_run n run (true ∷ rs) = has_run n 0 rs
has_run n run (false ∷ rs) =
    let rest = has_run n (run + 1) rs in if run + 1 == n then true else rest

suspended-stays :
    (c : ConsecutiveCounter) (rs : List Bool) → c.suspended ≡ true → report_all c rs ≡ (c, 0)
unfolding report_all report_consecutive
suspended-stays c [] h = refl
suspended-stays c (r ∷ rs) h = ground (arith, suspended-stays c rs h)

opens-has_run :
    (n run : ℕ) (rs : List Bool) (c : ConsecutiveCounter)
    → c.max_count ≡ n
    → c.consecutive_errors ≡ run
    → c.suspended ≡ false
    → n < u32_mod
    → run < n
    → (report_all c rs).1 ≡ (if has_run n run rs then 1 else 0)
unfolding report_all report_consecutive has_run
opens-has_run n run [] c m e s small h = refl
opens-has_run n run (true ∷ rs) c m e s small h =
    ground (
      arith,
      opens-has_run n 0 rs (record c { consecutive_errors = 0 }) m refl s small (omega arith),
    )
opens-has_run n run (false ∷ rs) c m e s small h = ground (
  arith,
  suspended-stays (record c { suspended = true; consecutive_errors = 0 }) rs refl,
  opens-has_run n (run + 1) rs
      (record c { consecutive_errors = (c.consecutive_errors + 1) % u32_mod }) m,
)

-- A new counter for `n` errors, 0 < n < 2^32, over any reports, calls `CloseToOpen` once if `n`
-- errors come in a row and never otherwise; whatever comes after the first run, it does not call it
-- again.
pub consecutive_lem :
    (n : ℕ) (rs : List Bool)
    → 0 < n
    → n < u32_mod
    → (report_all (new_consecutive_counter n) rs).1 ≡ (if has_run n 0 rs then 1 else 0)
unfolding new_consecutive_counter
consecutive_lem n rs h small =
    opens-has_run n 0 rs (record { max_count = n; consecutive_errors = 0; suspended = false }) refl
      refl refl small h
