-- ===== src/Token/Doubling.antt =====
-- The same output twice among the inputs of a transfer of contracts/btc-token.ts.
