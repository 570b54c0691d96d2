-- ===== src/Mcp/Refinement/Runs.antt =====
-- The journals of runs against the abstract machine.
