-- ===== src/Logger.antt =====
-- utils/logger.py: the loggers that were handed out, by their names, with their levels. `handled` is what
-- the logging library knows: the level of a logger that something else has given a handler.
use smart_locker_iot.Prelude.{ℕ, String, Option, none, some, List, [], ◌∷◌, ◌≡◌, refl, string_eq}
use smart_locker_iot.Prelude.Dict
use smart_locker_iot.Prelude.Dict.{Dict, AllValues}

pub record Logging : Type 0 where
  pub global_level : ℕ
  pub loggers : Dict String ℕ

-- logging.INFO
abbrev pub info : ℕ
info = 20

abbrev pub initial : Logging
initial = record { global_level = info; loggers = [] }

abbrev with_level : ℕ → Dict String ℕ → Dict String ℕ
with_level level [] = []
with_level level ((name, v) ∷ d) = (name, level) ∷ with_level level d

unfoldable pub set_global_log_level : ℕ → Logging → Logging
set_global_log_level level s = record { global_level = level; loggers = with_level level s.loggers }

-- The level of a logger that was not handed out yet: without a handler it gets one, and the global level.
abbrev first_level : Option ℕ → Logging → ℕ
first_level none s = s.global_level
first_level (some level) s = level

-- What `get_logger` does where the table has the name with a level, or does not have it.
abbrev handed_out : String → Option ℕ → ℕ → Logging → Logging
handed_out name (some level) first s = s
handed_out name none first s = record s { loggers = Dict.insert name first s.loggers }

unfoldable pub get_logger : (String → Option ℕ) → String → Logging → Logging
get_logger handled name s =
    handed_out name (Dict.get name s.loggers) (first_level (handled name) s) s

pub data Call : Type 0 where
  set_level : ℕ → Call
  get : String → Call

unfoldable pub perform : (String → Option ℕ) → Call → Logging → Logging
unfolding set_global_log_level get_logger
perform handled (set_level level) s = set_global_log_level level s
perform handled (get name) s = get_logger handled name s

unfoldable pub perform_all : (String → Option ℕ) → List Call → Logging → Logging
unfolding perform
perform_all handled [] s = s
perform_all handled (c ∷ cs) s = perform_all handled cs (perform handled c s)

-- Every logger has the global level.
pub IsLevel : Logging → Type 0
IsLevel s = AllValues (λ v. v ≡ s.global_level) s.loggers

with_level-AllValues :
    (level : ℕ) (d : Dict String ℕ) → AllValues (λ v. v ≡ level) (with_level level d)
with_level-AllValues level [] = tt
with_level-AllValues level ((name, v) ∷ d) = (refl, with_level-AllValues level d)

handed_out-IsLevel :
    (name : String) (known : Option ℕ) (s : Logging)
    → IsLevel s
    → IsLevel (handed_out name known s.global_level s)
unfolding IsLevel
handed_out-IsLevel name (some level) s h = h
handed_out-IsLevel name none s h = Dict.insert-AllValues _ name s.global_level s.loggers refl h

module _ (handled : String → Option ℕ) (alone : (name : String) → handled name ≡ none) where
  perform-IsLevel : (c : Call) (s : Logging) → IsLevel s → IsLevel (perform handled c s)
  unfolding perform get_logger set_global_log_level IsLevel
  perform-IsLevel (set_level level) s h = with_level-AllValues level s.loggers
  perform-IsLevel (get name) s h =
      rw (alone name) (handed_out-IsLevel name (Dict.get name s.loggers) s h)

  -- While nothing else gives a logger a handler, every logger that was handed out has the global level,
  -- whenever it was asked for and however often the level was set.
  pub perform_all-IsLevel :
      (cs : List Call) (s : Logging) → IsLevel s → IsLevel (perform_all handled cs s)
  unfolding perform_all
  perform_all-IsLevel [] s h = h
  perform_all-IsLevel (c ∷ cs) s h =
      perform_all-IsLevel cs (perform handled c s) (perform-IsLevel c s h)
