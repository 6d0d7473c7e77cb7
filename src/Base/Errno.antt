-- ===== src/Base/Errno.antt =====
-- The return codes of common/meshx_errno.h that the modelled functions use.
use mathlib.Core.Bool.{Bool, true, false}

-- `success` is MESHX_SUCCESS; each other constructor is the negated MESHX_ERR_ constant of its name.
pub data Ret : Type 0 where
  success fail mem inval busy already length max connect resource timing unexpected state diff
        filter not_found key inval_net_iface :
      Ret

pub Ret-discrete : Discrete Ret
Ret-discrete = hlevel

abbrev pub is_success : Ret → Bool
is_success success = true
is_success _ = false
