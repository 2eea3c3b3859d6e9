-- ===== src/Startup/Wired.antt =====
-- The configuration and what is built from it.
use emovis_micro_service.Base.{Text, ok, ℕ, ◌<◌, ◌^◌, pos, int32, int32-small, [], some, ◌≡◌, arith}
use emovis_micro_service.Platform.{Platform}
use emovis_micro_service.Money.Currency.Table.{lookup-code}
use emovis_micro_service.Store.Postgres.RoundTrip.{
  HasKnownDefault, accepted-ReadsBack, rounded, read_row-row_of,
}
use emovis_micro_service.Store.Postgres.Database.{Server, stored_row}
use emovis_micro_service.Store.Postgres.{row_of, read_row}
use emovis_micro_service.Transaction.Model.{Submission, Transaction}
use emovis_micro_service.Transaction.Validate.{System, accept, accepted}
use emovis_micro_service.Config.{Env, Readers, load}
use emovis_micro_service.Config.Admissible.{load_iff}
use emovis_micro_service.Startup.{rules_of, pool_limit}

module _ {D : Type 0} (platform : Platform D) (readers : Readers) where
  rules_of-HasKnownDefault :
      (env : Env)
      → (load platform readers env).1 ≡ []
      → HasKnownDefault platform (rules_of platform (load platform readers env).0)
  unfolding rules_of load
  rules_of-HasKnownDefault env h =
      let a = (load_iff platform readers env).0 h in
      let (c, known) = a.currency in simp (known, rules_of) (lookup-code platform.tables _ c known)

  -- What a service accepts under a configuration that was read without a problem is read back, from
  -- the row that a server that takes it makes of it, with its fingerprint and as the server rounds it.
  pub started-read_row :
      (server : Server D) (env : Env) (sys : System) (s : Submission) (tx : Transaction D)
      (digest : Text) (column : D)
      → (load platform readers env).1 ≡ []
      → accept platform (rules_of platform (load platform readers env).0) sys s ≡ accepted tx
      → read_row platform (stored_row server (row_of platform tx digest) column)
        ≡ ok (rounded platform server tx, digest)
  started-read_row server env sys s tx digest column h a =
      read_row-row_of platform server tx digest column (
        accepted-ReadsBack platform (rules_of platform (load platform readers env).0) sys s tx
          (rules_of-HasKnownDefault env h) a)

-- A pool that is configured with fewer than 2^31 connections gets as many.
pub pool_limit-configured : (n : ℕ) → 0 < n → n < 2 ^ 31 → pool_limit (int32 n) ≡ some (pos n)
unfolding pool_limit
pool_limit-configured n some_conns small = ground (arith, int32-small n small)
