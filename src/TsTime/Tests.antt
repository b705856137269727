-- ===== src/TsTime/Tests.antt =====
-- Examples for lib/libtscommon/src/tstime.c.
