-- ===== src/Version/Encoding.antt =====
-- The encoding of a version info in controllers/java/version/version.go.
use snk_fork_dolphin.Base.{◌≡◌, refl}
use snk_fork_dolphin.Version.{VersionInfo, marshal_info, unmarshal_info, ensure_two}

-- An info that is encoded and decoded is the info again.
pub unmarshal_info-marshal_info : (vi : VersionInfo) → unmarshal_info (marshal_info vi) ≡ vi
unfolding unmarshal_info marshal_info ensure_two
unmarshal_info-marshal_info vi = refl
