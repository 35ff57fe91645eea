-- ===== src/StatsWindows/Json.antt =====
-- stats.go: the JSON of a Stats. Parameters (StatsJson): encoding/json on the struct of numbers and
-- texts that both methods use, and Format and Parse of package time with the layout RFC3339Nano,
-- whose texts are a `T`.
use botex.Prelude.{◌≡◌, refl, Option, none, some, Bool, true, false}
use botex.Data.{Bytes}
use botex.Window.{Time}
use botex.StatsWindows.{Counters, Stats}

-- The struct of the two methods.
pub record StatsData (T : Type 0) : Type 0 where
  pub counters : Counters
  pub time : T
  pub updated_at : T

pub record StatsJson (T : Type 0) : Type 0 where
  pub marshal : StatsData T → Option Bytes
  pub unmarshal : Bytes → Option (StatsData T)
  pub format : Time → T
  pub parse : T → Option Time

module _ {T : Type 0} (json : StatsJson T) where
  abbrev pub data_of : Stats → StatsData T
  data_of s = record {
    counters = s.counters;
    time = json.format s.time;
    updated_at = json.format s.time;
  }

  -- `MarshalJSON`
  unfoldable pub marshal_json : Stats → Option Bytes
  marshal_json s = json.marshal (data_of s)

  -- The end of `UnmarshalJSON`; the flag says that it returns an error.
  unfoldable pub read_updated_at : Stats → Option Time → Stats × Bool
  read_updated_at s none = (s, true)
  read_updated_at s (some t) = (record s { updated_at = t }, false)

  unfoldable pub read_time : Stats → StatsData T → Option Time → Stats × Bool
  unfolding read_updated_at
  read_time s d none = (s, true)
  read_time s d (some t) = read_updated_at (record s { time = t }) (json.parse d.updated_at)

  unfoldable pub read_data : Stats → Option (StatsData T) → Stats × Bool
  unfolding read_time
  read_data s none = (s, true)
  read_data s (some d) = read_time (record s { counters = d.counters }) d (json.parse d.time)

  -- `UnmarshalJSON` into the Stats as it stands.
  unfoldable pub unmarshal_json : Bytes → Stats → Stats × Bool
  unfolding read_data
  unmarshal_json bytes s = read_data s (json.unmarshal bytes)

  -- What the two packages promise about what they have written themselves.
  pub record ReadsBack : Type 0 where
    pub times : (t : Time) → json.parse (json.format t) ≡ some t
    pub structs :
        (d : StatsData T) (v : Bytes) → json.marshal d ≡ some v → json.unmarshal v ≡ some d

  -- What UnmarshalJSON reads from the output of MarshalJSON, into any Stats, without an error: the
  -- Stats that was written, with its time in the place of the instant of its latest update.
  -- encoding/json and package time are taken to read back what they have written.
  pub unmarshal_json-marshal_json :
      (s old : Stats) (v : Bytes)
      → ReadsBack
      → marshal_json s ≡ some v
      → unmarshal_json v old ≡ (record s { updated_at = s.time }, false)
  unfolding marshal_json unmarshal_json read_data read_time read_updated_at
  unmarshal_json-marshal_json s old v back h =
      rw (back.structs (data_of s) v h) (rw (back.times s.time) (rw (back.times s.time) refl))
