-- ===== src/Security/Pow/Difficulty.antt =====
-- pkg/security/pow.go, `PoWConfig` and `DifficultyAdjuster`. Durations are bit patterns of int64s; the
-- arithmetic of float64 is a parameter, with what the code relies on.
use local_web.Base.{
  ℕ, ◌+◌, ◌-◌, ◌/◌, ◌%◌, ◌^◌, ◌≤◌, ◌<◌, ◌≡◌, inl, inr, Bool, true, false, not, ◌&&◌, List, [], ◌∷◌,
  ◌++◌, Option, none, some, arith, ltb, ◌==◌, if◌then◌else◌, Bool-cases, Option-cases, length, drop,
  length-drop,
}
use local_web.Base.Int64.{lt_int64}
use local_web.Security.Pow.{min_difficulty, max_difficulty}

-- float64 with the functions of the package math. A number is a value other than NaN.
pub record Float64 : Type 1 where
  pub F : Type 0
  pub of_int : ℕ → F
  pub lt : F → F → Bool
  pub add : F → F → F
  pub div : F → F → F
  pub log2 : F → F
  pub round_uint8 : F → ℕ
  pub IsNumber : F → Type 0
  pub of_int_pos : (n : ℕ) → 0 < n → lt (of_int 0) (of_int n) ≡ true
  pub of_int-IsNumber : (n : ℕ) → IsNumber (of_int n)
  pub lt_pos : (x : F) → lt (of_int 0) x ≡ true → IsNumber x × (lt x (of_int 0) ≡ false)
  pub div_nonneg :
      (n : ℕ) (x : F)
      → lt (of_int 0) x ≡ true
      → IsNumber (div (of_int n) x) × (lt (div (of_int n) x) (of_int 0) ≡ false)
  pub log2-IsNumber : (x : F) → IsNumber x → lt x (of_int 0) ≡ false → IsNumber (log2 x)
  pub add-IsNumber : (n : ℕ) (x : F) → IsNumber x → IsNumber (add (of_int n) x)
  pub round_between :
      (lo hi : ℕ) (x : F)
      → hi < 256
      → IsNumber x
      → lt x (of_int lo) ≡ false
      → lt (of_int hi) x ≡ false
      → (lo ≤ round_uint8 x) × (round_uint8 x ≤ hi)
  pub lt_of_int : (m n : ℕ) → m < 256 → n < 256 → lt (of_int m) (of_int n) ≡ ltb m n

module _ (fl : Float64) where
  open fl use {
    F, of_int, lt, add, div, log2, round_uint8, IsNumber, of_int_pos, of_int-IsNumber, lt_pos,
    div_nonneg, log2-IsNumber, add-IsNumber, round_between, lt_of_int,
  }

  pub record PowConfig : Type 0 where
    pub base_difficulty : ℕ
    pub least_difficulty : ℕ
    pub most_difficulty : ℕ
    pub target_solve_time : ℕ
    pub adjustment_interval : ℕ
    pub max_adjustment_factor : F
    pub memory : ℕ
    pub time_cost : ℕ
    pub parallelism : ℕ

  abbrev pub default_pow_config : PowConfig
  default_pow_config = record {
    base_difficulty = 16;
    least_difficulty = min_difficulty;
    most_difficulty = max_difficulty;
    target_solve_time = 100000000;
    adjustment_interval = 300000000000;
    max_adjustment_factor = of_int 2;
    memory = 65536;
    time_cost = 1;
    parallelism = 1;
  }

  pub record DifficultyAdjuster : Type 0 where
    pub config : PowConfig
    pub difficulty : ℕ
    pub last_adjust : ℕ
    pub history : List ℕ

  unfoldable pub new_difficulty_adjuster : PowConfig → DifficultyAdjuster
  new_difficulty_adjuster cfg =
      let raised =
        if ltb cfg.base_difficulty cfg.least_difficulty
        then cfg.least_difficulty
        else cfg.base_difficulty in
      record {
        config = cfg;
        difficulty = if ltb cfg.most_difficulty raised then cfg.most_difficulty else raised;
        last_adjust = 0;
        history = [];
      }

  abbrev sum : List ℕ → ℕ
  sum [] = 0
  sum (d ∷ ds) = d + sum ds

  -- The sum wraps around, and the division truncates towards 0; `none` is a negative result, which the
  -- caller treats like 0.
  unfoldable pub average_duration : List ℕ → Option ℕ
  average_duration ds =
      let total = sum ds % 2 ^ 64 in
      if length ds == 0
      then some 0
      else if ltb total (2 ^ 63)
      then some (total / length ds)
      else none

  abbrev pub bounded_ratio : PowConfig → ℕ → F
  bounded_ratio cfg avg =
      let ratio = div (of_int cfg.target_solve_time) (of_int avg) in
      let lo = div (of_int 1) cfg.max_adjustment_factor in
      let raised = if lt ratio lo then lo else ratio in
      if lt (of_int 0) cfg.max_adjustment_factor
      then (if lt cfg.max_adjustment_factor raised then cfg.max_adjustment_factor else raised)
      else ratio

  abbrev pub bounded_difficulty : PowConfig → F → F
  bounded_difficulty cfg x =
      let raised = if lt x (of_int cfg.least_difficulty) then of_int cfg.least_difficulty else x in
      if lt (of_int cfg.most_difficulty) raised then of_int cfg.most_difficulty else raised

  -- `a.history[len(a.history)-100:]` where it is longer.
  abbrev pub last_100 : List ℕ → List ℕ
  last_100 ds = if ltb 100 (length ds) then drop (length ds - 100) ds else ds

  -- The part of `RecordSolve` from the ratio on.
  unfoldable pub adjust : ℕ → ℕ → DifficultyAdjuster → DifficultyAdjuster
  adjust now avg a =
      let moved = add (of_int a.difficulty) (log2 (bounded_ratio a.config avg)) in
      record a { difficulty = round_uint8 (bounded_difficulty a.config moved); last_adjust = now }

  unfoldable pub record_solve : ℕ → ℕ → DifficultyAdjuster → DifficultyAdjuster
  record_solve now d a =
      let b = record a { history = last_100 (a.history ++ (d ∷ [])) } in
      if not (lt_int64 0 b.config.target_solve_time)
      then b
      else if not (b.last_adjust == 0)
          && lt_int64 (now - b.last_adjust) b.config.adjustment_interval
      then b
      else elim (average_duration b.history) [
        | none ↦ b
        | some avg ↦ if avg == 0 then b else adjust now avg b
      ]

  -- The difficulty is within the limits of the configuration, and the history is bounded.
  pub record IsAdjuster (a : DifficultyAdjuster) : Type 0 where
    pub low : a.config.least_difficulty ≤ a.difficulty
    pub high : a.difficulty ≤ a.config.most_difficulty
    pub byte : a.config.most_difficulty < 256
    pub few : length a.history ≤ 100

  pub IsAdjuster-new :
      (cfg : PowConfig)
      → cfg.least_difficulty ≤ cfg.most_difficulty
      → cfg.most_difficulty < 256
      → IsAdjuster (new_difficulty_adjuster cfg)
  unfolding new_difficulty_adjuster
  IsAdjuster-new cfg h k = ground arith

  bounded_ratio_fine :
      (cfg : PowConfig) (avg : ℕ)
      → 0 < avg
      → IsNumber (bounded_ratio cfg avg) × (lt (bounded_ratio cfg avg) (of_int 0) ≡ false)
  bounded_ratio_fine cfg avg pos = elim (Bool-cases (lt (of_int 0) cfg.max_adjustment_factor)) [
    | inr free ↦ rw free ratio
    | inl capped ↦ ground (
      arith,
      ratio,
      div_nonneg 1 cfg.max_adjustment_factor capped,
      lt_pos cfg.max_adjustment_factor capped,
    )
  ]
    where
      ratio :
          IsNumber (div (of_int cfg.target_solve_time) (of_int avg))
          × (lt (div (of_int cfg.target_solve_time) (of_int avg)) (of_int 0) ≡ false)
      ratio = div_nonneg cfg.target_solve_time (of_int avg) (of_int_pos avg pos)

  bounded_difficulty_fine :
      (cfg : PowConfig) (x : F)
      → cfg.least_difficulty ≤ cfg.most_difficulty
      → cfg.most_difficulty < 256
      → IsNumber x
      → IsNumber (bounded_difficulty cfg x)
        × (lt (bounded_difficulty cfg x) (of_int cfg.least_difficulty) ≡ false)
        × (lt (of_int cfg.most_difficulty) (bounded_difficulty cfg x) ≡ false)
  bounded_difficulty_fine cfg x h k n = ground (
    arith,
    of_int-IsNumber cfg.least_difficulty,
    of_int-IsNumber cfg.most_difficulty,
    lt_of_int cfg.most_difficulty cfg.least_difficulty,
    lt_of_int cfg.least_difficulty cfg.least_difficulty,
    lt_of_int cfg.most_difficulty cfg.most_difficulty,
  )

  adjust-IsAdjuster :
      (now avg : ℕ) (a : DifficultyAdjuster)
      → 0 < avg
      → IsAdjuster a
      → IsAdjuster (adjust now avg a)
  unfolding adjust
  adjust-IsAdjuster now avg a pos k = record {
    low = within.0;
    high = within.1;
    byte = k.byte;
    few = k.few;
  }
    where
      moved : F
      moved = add (of_int a.difficulty) (log2 (bounded_ratio a.config avg))

      number : IsNumber moved
      number =
          let (n, p) = bounded_ratio_fine a.config avg pos in
          add-IsNumber a.difficulty _ (log2-IsNumber _ n p)

      within :
          (a.config.least_difficulty ≤ round_uint8 (bounded_difficulty a.config moved))
          × (round_uint8 (bounded_difficulty a.config moved) ≤ a.config.most_difficulty)
      within =
          let (n, l, h) =
            bounded_difficulty_fine a.config moved (omega (arith, k.low, k.high)) k.byte number in
          round_between _ _ _ k.byte n l h

  length-last_100 : (ds : List ℕ) → length (last_100 ds) ≤ 100
  length-last_100 ds = ground (arith, length-drop (length ds - 100) ds)

  -- Recording a solve, however long it took, leaves the difficulty within the limits of the
  -- configuration and keeps at most the last 100 durations.
  pub record_solve-IsAdjuster :
      (now d : ℕ) (a : DifficultyAdjuster) → IsAdjuster a → IsAdjuster (record_solve now d a)
  unfolding record_solve
  record_solve-IsAdjuster now d a k =
      elim (Bool-cases (not (lt_int64 0 a.config.target_solve_time))) [
        | inl off ↦ rw (off, record_solve) recorded
        | inr on ↦
            elim (Bool-cases (
              not (a.last_adjust == 0)
              && lt_int64 (now - a.last_adjust) a.config.adjustment_interval)) [
                | inl early ↦ rw (on, early, record_solve) recorded
                | inr due ↦ elim (Option-cases (average_duration b.history)) [
                  | inl e ↦ rw (on, due, e, record_solve) recorded
                  | inr (avg, e) ↦ rw (on, due, e, record_solve) (decided avg)
                ]
              ]
      ]
    where
      b : DifficultyAdjuster
      b = record a { history = last_100 (a.history ++ (d ∷ [])) }

      recorded : IsAdjuster b
      recorded = record {
        low = k.low;
        high = k.high;
        byte = k.byte;
        few = length-last_100 (a.history ++ (d ∷ []));
      }

      decided : (avg : ℕ) → IsAdjuster (if avg == 0 then b else adjust now avg b)
      decided avg = elim (Bool-cases (avg == 0)) [
        | inl z ↦ rw z recorded
        | inr nz ↦ rw nz (adjust-IsAdjuster now avg b (ground arith) recorded)
      ]
