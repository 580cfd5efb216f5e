-- ===== src/Main/Starts.antt =====
-- When the program starts, and at which log level.
use rfrp.Base.{
  ◌≡◌, ◌≢◌, refl, sym, ap, ◌∙◌, ◌⊎◌, inl, inr, Option, some, arith, bytes_eq, bytes_eq→eq,
  Option-cases,
}
use rfrp.Base.Bytes.{codes}
use rfrp.Base.Result.{Result-cases, ok, err}
use rfrp.Config.{Text, ConfigInfo, RunningMode, server, client, unknown, init}
use rfrp.Config.Validate.{ConfigError, validate, new}
use rfrp.Config.Verdict.{IsUsable, validate-accepts}
use rfrp.Main.{
  Course, panicked, invalid, serves, connects, rfrp_main, LevelFilter, trace, debug, info, warn,
  error, to_lowercase, parse_level, log_level,
}

-- The side that a configuration asks for.
abbrev pub side : ConfigInfo → Course
side c = elim c.running_mode [ server ↦ serves c | client ↦ connects c | unknown ↦ panicked ]

module _ (from_str : Text → Option ConfigInfo) where
  -- The program behind `ConfigInfo::new`.
  abbrev checked : ConfigInfo → Course
  checked c = elim (validate c) [ err e ↦ invalid e | ok _ ↦ side c ]

  by_mode :
      (content : Text) (parsed : ConfigInfo) (m : RunningMode)
      → from_str content ≡ some parsed
      → (init parsed).running_mode ≡ m
      → rfrp_main from_str content ≡ (elim m [ unknown ↦ panicked | _ ↦ checked (init parsed) ])
  unfolding rfrp_main new
  by_mode content parsed server h e = ground arith
  by_mode content parsed client h e = ground arith
  by_mode content parsed unknown h e = ground arith

  -- What a file that parses starts. When the configuration, with the addresses computed, is usable for
  -- its mode, that mode's side runs on it; else the program panics, if the mode is Unknown, and
  -- reports the error of `validate`, if it is not. It never comes to a mode that it cannot run.
  pub rfrp_main-starts :
      (content : Text) (parsed : ConfigInfo)
      → from_str content ≡ some parsed
      → let c = init parsed in
        let course = rfrp_main from_str content in
        (IsUsable c × (course ≡ side c))
        ⊎ ((IsUsable c → ⊥)
            × (((c.running_mode ≡ unknown) × (course ≡ panicked))
                ⊎ ((c.running_mode ≢ unknown)
                    × ((e : ConfigError) × (validate c ≡ err e) × (course ≡ invalid e)))))
  rfrp_main-starts content parsed h = by_course ((init parsed).running_mode) refl
    where
      c : ConfigInfo
      c = init parsed

      course : Course
      course = rfrp_main from_str content

      Verdict : Type 0
      Verdict =
          (IsUsable c × (course ≡ side c))
          ⊎ ((IsUsable c → ⊥)
              × (((c.running_mode ≡ unknown) × (course ≡ panicked))
                  ⊎ ((c.running_mode ≢ unknown)
                      × ((e : ConfigError) × (validate c ≡ err e) × (course ≡ invalid e)))))

      known : c.running_mode ≢ unknown → course ≡ checked c → Verdict
      known sure same = elim (Result-cases (validate c)) [
        | inl (u, e) ↦ inl ((validate-accepts c).0 e, same ∙ rw (e, checked) refl)
        | inr (x, e) ↦
            inr (
              (λ u. cc ((validate-accepts c).1 u)),
              inr (sure, (x, e, same ∙ rw (e, checked) refl)),
            )
      ]

      by_course : (m : RunningMode) → c.running_mode ≡ m → Verdict
      by_course server e = known (λ h. cc) (by_mode content parsed server h e)
      by_course client e = known (λ h. cc) (by_mode content parsed client h e)
      by_course unknown e = inr ((λ u. rw e at u), inl (e, by_mode content parsed unknown h e))

-- The words that RFRP_LOG may hold, in lower case.
abbrev pub word : LevelFilter → Text
word trace = codes "trace"
word debug = codes "debug"
word info = codes "info"
word warn = codes "warn"
word error = codes "error"

parse_level-word : (l : LevelFilter) → parse_level (word l) ≡ some l
unfolding parse_level bytes_eq
parse_level-word trace = refl
parse_level-word debug = refl
parse_level-word info = refl
parse_level-word warn = refl
parse_level-word error = refl

parse_level_sound : (t : Text) (l : LevelFilter) → parse_level t ≡ some l → t ≡ word l
unfolding parse_level
parse_level_sound t l h = ground (
  arith,
  bytes_eq→eq t (codes "trace"),
  bytes_eq→eq t (codes "debug"),
  bytes_eq→eq t (codes "info"),
  bytes_eq→eq t (codes "warn"),
  bytes_eq→eq t (codes "error"),
)

-- A word in any mixture of upper and lower case sets its level, and any other text sets Info.
pub log_level_lem :
    (s : Text)
    → ((l : LevelFilter) × (to_lowercase s ≡ word l) × (log_level (some s) ≡ l))
      ⊎ (((l : LevelFilter) → to_lowercase s ≢ word l) × (log_level (some s) ≡ info))
unfolding log_level
log_level_lem s = elim (Option-cases (parse_level (to_lowercase s))) [
  | inl e ↦
      inr ((λ l h. cc (sym e ∙ ap parse_level h ∙ parse_level-word l)), rw (e, log_level) refl)
  | inr (l, e) ↦ inl (l, parse_level_sound (to_lowercase s) l e, rw (e, log_level) refl)
]
