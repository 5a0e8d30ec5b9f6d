-- ===== src/Runtime/Values.antt =====
-- runtime/supervisor.py: the values of the mappings that the workers' snapshots give, and how they are
-- read. The texts that `int` and `datetime.fromisoformat` accept are an argument, `Conversions`.
use fdv.Base.{
  String, Bool, true, false, Option, none, some, List, [], ◌∷◌, nat_beq, ◌==◌, string_eq,
  if◌then◌else◌, get_or,
}
use fdv.Base.Integer.{ℤ, pos, negsuc}
use fdv.Base.Dict.{Dict, lookup}
use fdv.Domain.Order.{Time}
use fdv.Base.{ℕ}

-- `many n` is a collection of `n` things.
pub data Value : Type 0 where
  nothing : Value
  flag : Bool → Value
  number : ℤ → Value
  text : String → Value
  stamp : Time → Value
  many : ℕ → Value

-- `int(text)`, and `datetime.fromisoformat(str(value).strip())` of a value that is no datetime.
pub record Conversions : Type 0 where
  pub int_of_text : String → Option ℤ
  pub time_of_value : Value → Option Time

-- `bool(value)`
unfoldable pub truth : Value → Bool
truth nothing = false
truth (flag b) = b
truth (number (pos n)) = if nat_beq n 0 then false else true
truth (number (negsuc n)) = true
truth (text s) = if s == "" then false else true
truth (stamp t) = true
truth (many n) = if nat_beq n 0 then false else true

-- `int(value)`, with none for a TypeError or a ValueError.
unfoldable pub int_of : Conversions → Value → Option ℤ
int_of k nothing = none
int_of k (flag true) = some (pos 1)
int_of k (flag false) = some (pos 0)
int_of k (number n) = some n
int_of k (text s) = k.int_of_text s
int_of k (stamp t) = none
int_of k (many n) = none

abbrev pub Mapping : Type 0
Mapping = Dict String Value

abbrev pub truth_or : Option Value → Bool → Bool
truth_or none d = d
truth_or (some v) d = truth v

-- `_bool`
unfoldable pub read_bool : Mapping → String → Bool → Bool
read_bool m key d = truth_or (lookup key m) d

abbrev pub int_or : Conversions → Option Value → ℤ → ℤ
int_or k none d = d
int_or k (some v) d = get_or (int_of k v) d

-- `_int`
unfoldable pub read_int : Conversions → Mapping → String → ℤ → ℤ
read_int k m key d = int_or k (lookup key m) d

abbrev pub time_of : Conversions → Option Value → Option Time
time_of k none = none
time_of k (some nothing) = none
time_of k (some (stamp t)) = some t
time_of k (some (flag b)) = k.time_of_value (flag b)
time_of k (some (number n)) = k.time_of_value (number n)
time_of k (some (text s)) = k.time_of_value (text s)
time_of k (some (many n)) = k.time_of_value (many n)

-- `_datetime`
unfoldable pub read_datetime : Conversions → Mapping → String → Option Time
read_datetime k m key = time_of k (lookup key m)

-- `value in {None, ""}`
abbrev pub is_blank : Option Value → Bool
is_blank none = true
is_blank (some nothing) = true
is_blank (some (text s)) = s == ""
is_blank (some (flag b)) = false
is_blank (some (number n)) = false
is_blank (some (stamp t)) = false
is_blank (some (many n)) = false

-- A gauge of the metrics: a bare value, or a mapping with its entry `value`.
pub data Gauge : Type 0 where
  bare : Value → Gauge
  mapped : Option Value → Gauge

-- An entry of a list of gauges: no mapping, or one with its entries `name` and `value`.
pub data ListedGauge : Type 0 where
  other : ListedGauge
  named : Option Value → Option Value → ListedGauge

pub data Gauges : Type 0 where
  no_gauges : Gauges
  by_name : Dict String Gauge → Gauges
  listed : List ListedGauge → Gauges

pub record Metrics : Type 0 where
  pub values : Mapping
  pub gauges : Gauges

abbrev pub int_of? : Conversions → Option Value → Option ℤ
int_of? k none = none
int_of? k (some v) = int_of k v

abbrev pub gauge_value : Option Gauge → Option Value
gauge_value none = none
gauge_value (some (bare v)) = some v
gauge_value (some (mapped v)) = v

abbrev pub is_text : String → Option Value → Bool
is_text name none = false
is_text name (some nothing) = false
is_text name (some (flag b)) = false
is_text name (some (number n)) = false
is_text name (some (text s)) = s == name
is_text name (some (stamp t)) = false
is_text name (some (many n)) = false

unfoldable pub find_gauge : Conversions → String → List ListedGauge → Option ℤ
find_gauge k metric_name [] = none
find_gauge k metric_name (other ∷ rest) = find_gauge k metric_name rest
find_gauge k metric_name (named name value ∷ rest) =
    if is_text metric_name name then int_of? k value else find_gauge k metric_name rest

unfoldable pub gauge_metric : Conversions → String → Gauges → Option ℤ
unfolding find_gauge
gauge_metric k metric_name no_gauges = none
gauge_metric k metric_name (by_name d) = int_of? k (gauge_value (lookup metric_name d))
gauge_metric k metric_name (listed gs) = find_gauge k metric_name gs

abbrev pub metric_or_gauge : Conversions → String → Option Value → Gauges → Option ℤ
metric_or_gauge k metric_name (some v) g = int_of k v
metric_or_gauge k metric_name none g = gauge_metric k metric_name g

-- `_extract_metric_value`
unfoldable pub extract_metric_value : Conversions → Metrics → String → Option ℤ
unfolding gauge_metric int_of
extract_metric_value k m metric_name =
    metric_or_gauge k metric_name (lookup metric_name m.values) m.gauges
