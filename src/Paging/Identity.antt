-- ===== src/Paging/Identity.antt =====
-- What `init_paging` of memory/paging.c maps.
use awk.Paging.{Paging}
