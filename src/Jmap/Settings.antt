-- ===== src/Jmap/Settings.antt =====
-- What a JMAP driver is set to (internal/jmapdrv/jmap.go: Config, New).
use yarilo_loadtest.Base.{
  ◌-◌, Bool, List, Bytes, codes, length, take, ◌==◌, if◌then◌else◌, ℤ, pos, is_nonpos,
}
use yarilo_loadtest.Base.Result.{Result, ok, err}
use yarilo_loadtest.Text.{has_suffix}

pub record Config : Type 0 where
  pub base_url : Bytes
  pub users : List Bytes
  pub password : Bytes
  pub insecure : Bool
  pub timeout : ℤ
  pub window : ℤ
  pub fetch_bodies : Bool
  pub threads : Bool

pub data BadConfig : Type 0 where
  no_users no_base_url no_window : BadConfig

-- `TrimSuffix(cfg.BaseURL, "/")`
unfoldable pub trim_slash : Bytes → Bytes
trim_slash url = if has_suffix url (codes "/") then take (length url - 1) url else url

-- `New`
unfoldable pub new : Config → Result BadConfig Config
new c =
    if length c.users == 0
    then err no_users
    else if length c.base_url == 0
    then err no_base_url
    else if is_nonpos c.window
    then err no_window
    else ok (record c {
      timeout = if is_nonpos c.timeout then pos 30_000_000_000 else c.timeout;
      base_url = trim_slash c.base_url;
    })
