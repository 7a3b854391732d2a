-- ===== src/Config.antt =====
-- app/core/config.py: the database URL that the settings keep. A text is the list of its code points.
pub mod Schemes
use Prim.Native.Char.{code}
use fleet_tracking_backend.Prelude.{
  ℕ, String, Bool, true, false, ◌&&◌, ◌==◌, List, [], ◌∷◌, ◌++◌, length, drop, if◌then◌else◌,
}
use fleet_tracking_backend.Mqtt.Topic.{Text}

abbrev pub codes : String → Text
codes String.[] = []
codes (String.◌∷◌ c s) = code c ∷ codes s

-- `text.startswith(prefix)`
unfoldable pub starts_with : Text → Text → Bool
starts_with [] text = true
starts_with (c ∷ prefix) [] = false
starts_with (c ∷ prefix) (e ∷ text) = c == e && starts_with prefix text

abbrev pub postgresql : Text
postgresql = codes "postgresql://"

abbrev pub postgres : Text
postgres = codes "postgres://"

abbrev pub asyncpg : Text
asyncpg = codes "postgresql+asyncpg://"

-- `_normalize_database_url`
unfoldable pub normalize_database_url : Text → Text
unfolding starts_with
normalize_database_url url =
    if starts_with postgresql url
    then asyncpg ++ drop (length postgresql) url
    else (if starts_with postgres url then asyncpg ++ drop (length postgres) url else url)
