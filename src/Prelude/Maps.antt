-- ===== src/Prelude/Maps.antt =====
-- Finite maps keyed by texts, as functions into Option.
use Prim.Native.String.{String}
use mathlib.Core.Path.{◌≡◌}
use mathlib.Core.Option.{Option}
use native.Mathlib.Omega.{arith}
use text.Mathlib.TextEquality.{eq_iff}
use harness_auto_test_eviden.Prelude.Tests.{if◌then◌else◌}
use harness_auto_test_eviden.Prelude.Text.{◌===◌, ===-refl}

module _ {ℓ} {V : Type ℓ} where
  -- m[k] = v, and del m[k] where `v` is none.
  abbrev pub update : (String → Option V) → String → Option V → String → Option V
  update m k v j = if k === j then v else m j

  pub update_self : (m : String → Option V) (k : String) (v : Option V) → update m k v k ≡ v
  update_self m k v = ground (arith, ===-refl k)

  -- A write keeps what the map holds where the written value is the one that is held.
  pub update_keeps :
      (m : String → Option V) (k j : String) (v w : Option V)
      → m j ≡ w
      → (k ≡ j → v ≡ w)
      → update m k v j ≡ w
  update_keeps m k j v w h same = ground (arith, eq_iff k j)
