-- ===== src/World/Frames.antt =====
-- What a transaction guarantees.
use go_pet_project.Base.{◌≡◌, arith, suc}
use go_pet_project.Errors.{Error, ok, err}
use go_pet_project.World.{World, Action, IsTransactional, tick, transaction}

-- A transaction that fails leaves the tables as they were.
pub transaction_atomic :
    {A : Type 0} (m : Action A) (w : World) {e : Error}
    → IsTransactional w.env
    → (transaction m w).0 ≡ err e
    → (transaction m w).1.tables ≡ w.tables
unfolding transaction
transaction_atomic m w t h =
    ground (arith, t.discards w.tables (m (record w { step = suc w.step })).1.tables)

-- A transaction that succeeds has run its function after BEGIN, and its tables are those that the
-- function left.
pub transaction-ok :
    {A : Type 0} (m : Action A) (w : World) {a : A}
    → (transaction m w).0 ≡ ok a
    → ((m (tick w)).0 ≡ ok a) × ((transaction m w).1.tables ≡ (m (tick w)).1.tables)
unfolding transaction
transaction-ok m w h = ground arith

-- A transaction keeps the environment that its function keeps.
pub env-transaction :
    {A : Type 0} (m : Action A) (w : World)
    → (m (tick w)).1.env ≡ w.env
    → (transaction m w).1.env ≡ w.env
unfolding transaction
env-transaction m w h = ground arith
