-- ===== src/Examples/Switching.antt =====
-- Examples for `switchConfiguration` of src/core/engine/engine_setting.cpp.
use yamy.Base.{ℕ, ◌≤◌, ◌<◌, ◌≡◌, refl, Bool, true, false, some, [], inr, ltb, arith}
use yamy.Configuration.{Configuration, switch_configuration}
use yamy.Configuration.Switched.{
  Installed, RolledBack, switch_configuration-Installed, switch_configuration-RolledBack,
}

-- Setting 0 from path 7 is in use.
abbrev in_use : Configuration
in_use = record { setting = some 0; current_config_path = 7; next = 1; deleted = []; reports = [] }

abbrev always : ℕ → Bool
always i = true

-- Busy for the first ten attempts.
abbrev ten_times : ℕ → Bool
ten_times i = ltb i 10

ten_times_busy : (i : ℕ) → i < 10 → ten_times i ≡ true
ten_times_busy i lt = ground arith

switch_configuration-Installed_example :
    Installed false 8 in_use (switch_configuration always always ten_times 8 in_use)
switch_configuration-Installed_example =
    switch_configuration-Installed always always ten_times 8 10 in_use refl refl refl ten_times_busy
      refl (omega arith)

always_busy : (i : ℕ) → i ≤ 10 → always i ≡ true
always_busy i le = refl

switch_configuration-RolledBack_example :
    RolledBack 8 in_use (switch_configuration always always always 8 in_use)
switch_configuration-RolledBack_example =
    switch_configuration-RolledBack always always always 8 in_use refl (inr (inr always_busy))
