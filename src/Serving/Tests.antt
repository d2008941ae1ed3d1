-- ===== src/Serving/Tests.antt =====
-- What the sample World serves after a promotion.
use konnaxion_worlds.Base.{true, none}
use konnaxion_worlds.Purge.{Accounts}
use konnaxion_worlds.Releases.{promote_release}
use konnaxion_worlds.Samples.{host, alpha, second_release, installation}
use konnaxion_worlds.Serving.{serving, Switches}
use konnaxion_worlds.Serving.Services.{promote_release-serving}

switched_example :
    Switches none
      (promote_release host 50 alpha second_release installation).0
      10
      8
      (serving installation)
      (serving (promote_release host 50 alpha second_release installation).1)
switched_example = promote_release-serving host 50 alpha second_release installation

abbrev accounts : Accounts
accounts = record { eligible = λ i. true; delete_users = λ is. none; audit_failure = none }
