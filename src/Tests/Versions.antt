-- ===== src/Tests/Versions.antt =====
-- Versions of controllers/java/version at concrete inputs.
use snk_fork_dolphin.Base.{◌≡◌, arith, false, List, [], ◌∷◌}
use snk_fork_dolphin.Base.Text.{Text, codes, Lacks}
use snk_fork_dolphin.Version.{
  VersionInfo, Managers, VersionEvent, version_added, watch_version, get_expected, get_backup,
}
use snk_fork_dolphin.Version.Latest.{Known, told_all, watch_version-told}

abbrev no_versions : Managers
no_versions = record { version_managers = []; cancellable = false }

abbrev info_of : Text → VersionInfo
info_of exp = record { typ = codes "java"; cluster = codes "crm"; backup = []; expected = exp }

abbrev two_events : List VersionEvent
two_events =
    version_added (codes "dev/crm") (info_of (codes "1"))
    ∷ version_added (codes "dev/crm") (info_of (codes "2"))
    ∷ []

java-Lacks : Lacks b':' (codes "java")
java-Lacks = ground arith

watch_version-told_example :
    let known : Known = (
      (get_expected (codes "dev") (codes "java") (codes "crm") no_versions).1,
      (get_backup (codes "dev") (codes "java") (codes "crm") no_versions).1,
    ) in
    let ms' = watch_version two_events no_versions in
    let told = told_all (codes "dev") (codes "java") (codes "crm") two_events known in
    ((get_expected (codes "dev") (codes "java") (codes "crm") ms').1 ≡ told.0)
    × ((get_backup (codes "dev") (codes "java") (codes "crm") ms').1 ≡ told.1)
watch_version-told_example =
    watch_version-told (codes "dev") (codes "java") (codes "crm") java-Lacks two_events no_versions
      (java-Lacks, (java-Lacks, tt))
