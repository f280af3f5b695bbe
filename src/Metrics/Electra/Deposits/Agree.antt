-- ===== src/Metrics/Electra/Deposits/Agree.antt =====
-- The two replays of the queue of pending deposits agree (pkg/spec/metrics/state_electra.go).
