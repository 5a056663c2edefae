-- ===== src/Week2/Compose/Unsafe/Safe.antt =====
-- What a Compose file is in which week 2 finds nothing unsafe.
