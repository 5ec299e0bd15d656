-- ===== src/Fs/Content/Truncating.antt =====
-- `itrunc` leaves an empty file, and frees its blocks.
