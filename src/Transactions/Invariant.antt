-- ===== src/Transactions/Invariant.antt =====
-- Only a client in a transaction has commands in its queue.
use carrotdb.Commands.Command.{Command}
