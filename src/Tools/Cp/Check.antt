-- ===== src/Tools/Cp/Check.antt =====
-- src/cp/cp.c, `app_paramCheck`: the parameters that pass.
use nvme_dpdk_pcapreplay.Prelude.{◌≡◌, Bool, ◌&&◌, ◌||◌, not, arith}
use nvme_dpdk_pcapreplay.Tools.Cp.{Params, given, app_param_check}

-- A source in the system and a target on the raid are given and nothing else, or a source on the raid
-- and a target in the system.
abbrev pub one_way : Params → Bool
one_way a =
    (given a.from_sys && (given a.to_raid && (not (given a.from_raid) && not (given a.to_sys))))
    || (given a.from_raid && (given a.to_sys && (not (given a.from_sys) && not (given a.to_raid))))

-- The nine tests of `app_paramCheck` stop the program unless one source and one target are given, one
-- of them in the system and the other on the raid.
pub app_param_check-one_way : (a : Params) → app_param_check a ≡ not (one_way a)
unfolding app_param_check
app_param_check-one_way a = ground arith
