-- ===== src/Configuration.antt =====
-- `switchConfiguration` of src/core/engine/engine_setting.cpp for Linux, with the settings that it makes
-- and deletes. A pointer to a setting and a path are numbers. Of `setSetting` only the guard and the
-- exchange of `m_setting` are here. Messages to the GUI and the active path of `ConfigManager` are
-- left out.
pub mod Switched
use yamy.Base.{
  ℕ, zero, suc, ◌+◌, ◌≡◌, Bool, true, false, not, ◌&&◌, Option, none, some, List, [], ◌∷◌, ◌==◌,
  leb, if◌then◌else◌,
}

pub record Configuration : Type 0 where
  pub setting : Option ℕ
  pub current_config_path : ℕ
  pub next : ℕ  -- the setting that `new` gives
  pub deleted : List ℕ
  pub reports : List (Bool × ℕ)  -- the calls of `m_configSwitchCallback`, the latest first

abbrev pub max_retries : ℕ
max_retries = 10

-- `delete`, which does nothing for a null pointer.
unfoldable pub delete : Option ℕ → Configuration → Configuration
delete none s = s
delete (some p) s = record s { deleted = p ∷ s.deleted }

unfoldable pub report : Bool → ℕ → Configuration → Configuration
report success path s = record s { reports = (success, path) ∷ s.reports }

-- `setSetting` with the flag `m_isSynchronizing` at the time of the call.
unfoldable pub set_setting : Bool → ℕ → Configuration → Bool × Configuration
set_setting is_synchronizing p s =
    if is_synchronizing then (false, s) else (true, record s { setting = some p })

-- The loop: what is left to try, the count of retries and the flag at each attempt.
unfoldable pub retry : ℕ → ℕ → (ℕ → Bool) → ℕ → Configuration → ℕ × Configuration
retry zero count is_synchronizing p s = (count, (set_setting (is_synchronizing count) p s).1)
retry (suc left) count is_synchronizing p s =
    let (is_set, s') = set_setting (is_synchronizing count) p s in
    let again = retry left (suc count) is_synchronizing p s' in
    if is_set then (count, s') else again

-- The part behind the loop.
unfoldable pub after_retry : Option ℕ → ℕ → ℕ → ℕ × Configuration → Bool × Configuration
after_retry old p path (count, s) =
    if leb max_retries count
    then (false, report false path (delete (some p) s))
    else (true, report true path (record (delete old s) { current_config_path = path }))

-- The part with a new setting.
unfoldable pub apply_setting : (ℕ → Bool) → ℕ → ℕ → Configuration → Bool × Configuration
apply_setting is_synchronizing p path s =
    after_retry s.setting p path (retry max_retries 0 is_synchronizing p s)

module _ (is_file : ℕ → Bool) (load : ℕ → Bool) where
  unfoldable pub switch_configuration : (ℕ → Bool) → ℕ → Configuration → Bool × Configuration
  switch_configuration is_synchronizing path s =
      let p = s.next in
      let made = record s { next = suc p } in
      if s.current_config_path == path
      then (true, s)
      else (if not (is_file path)
          then (false, report false path s)
          else (if not (load path)
              then (false, report false path (delete (some p) made))
              else apply_setting is_synchronizing p path made))
