-- ===== src/Prelude/Map.antt =====
-- A mapping from texts whose order nothing reads: a Python `dict` or a table with a primary key.
use Prim.Native.String.{String}
use mathlib.Core.Bool.{Bool}
use mathlib.Core.Option.{Option, none, some}
use otl_voice.Prelude.Tests.{◌==◌, string_eq, if◌then◌else◌}

abbrev pub Map : Type 0 → Type 0
Map V = String → Option V

module _ {V : Type 0} where
  abbrev pub put : String → V → Map V → Map V
  put k v m j = if k == j then some v else m j

  abbrev pub remove : String → Map V → Map V
  remove k m j = if k == j then none else m j

  abbrev keep : (V → Bool) → Option V → Option V
  keep p none = none
  keep p (some v) = if p v then some v else none

  -- Every entry that passes the test, and no other.
  abbrev pub restrict : (V → Bool) → Map V → Map V
  restrict p m j = keep p (m j)
