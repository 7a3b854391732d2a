-- ===== src/Invariant/Commits.antt =====
-- A commit that meets the constraints goes through.
use fleet_tracking_backend.Prelude.{◌≡◌}
use fleet_tracking_backend.Errors.{ok}
use fleet_tracking_backend.Store.{Database}
use fleet_tracking_backend.Store.Schema.{Schema}
use fleet_tracking_backend.Store.Session.{Session, commit}

pub commit-ok : (s : Session) (d : Database) → Schema d → commit s d ≡ ok d
unfolding commit
commit-ok s d h = rw ((s.accepts_iff d).1 h)
