-- ===== src/Generator/Dispatch.antt =====
-- The virtual calls of `AbstractGenerator` on the two generators that a tenant can have.
pub mod Laws
pub mod Valid
pub mod Sized
pub mod Numbered
use hvbench.Base.{Text}
use hvbench.Base.Result.{Result, ok, ◌>>=◌}
use hvbench.External.Boost.{Boost}
use hvbench.External.Random.{Random}
use hvbench.External.Fluid.{Fluid}
use hvbench.Msg.Messages.{Time, ScheduledMsg}
use hvbench.Generator.Abstract
use hvbench.Generator.Constant
use hvbench.Generator.Constant.{ConstantGenerator}
use hvbench.Generator.Tenant
use hvbench.Generator.Tenant.{TenantGenerator}

pub data Generator (r : Random) : Type 0 where
  constant : ConstantGenerator → Generator r
  tenant : TenantGenerator r → Generator r

module _ (r : Random) where
  unfoldable pub peek : Generator r → Time
  unfolding Constant.peek Tenant.peek
  peek (constant g) = Constant.peek g
  peek (tenant g) = Tenant.peek r g

  unfoldable pub next : Fluid → Generator r → Result (ScheduledMsg × Generator r)
  unfolding Constant.next Tenant.next
  next f (constant g) = let (m, g') = Constant.next f g in ok (m, constant g')
  next f (tenant g) = do (m, g') ← Tenant.next r f g; ok (m, tenant g')

  unfoldable pub update : Boost → Text → Text → Generator r → Result (Generator r)
  unfolding Constant.update Tenant.update
  update b key value (constant g) = do g' ← Constant.update b key value g; ok (constant g')
  update b key value (tenant g) = do g' ← Tenant.update r b key value g; ok (tenant g')

  unfoldable pub set_time_reference : Time → Generator r → Generator r
  unfolding Abstract.set_time_reference
  set_time_reference t (constant g) =
      constant (record g { base = Abstract.set_time_reference g.base t })
  set_time_reference t (tenant g) =
      tenant (record g { base = Abstract.set_time_reference g.base t })
