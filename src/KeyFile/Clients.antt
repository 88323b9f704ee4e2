-- ===== src/KeyFile/Clients.antt =====
-- The start of the indexer, in indexer/run.go, with SimpleClient of keygrantor/simpleclient.go.
use egvm.Bytes.{Bytes}
