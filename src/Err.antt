-- ===== src/Err.antt =====
-- `OS_RETURN_E` of lib/stddef.h: the states that the modelled functions return.
pub data Err : Type 0 where
  no_err null_pointer no_such_id malloc_failed unauthorized_action forbidden_priority : Err
  mutex_uninitialized sem_uninitialized mailbox_non_initialized queue_non_initialized : Err
  no_sem_blocked no_mutex_blocked no_queue_blocked : Err
  mutex_locked sem_locked : Err
  mapping_already_exists memory_not_mapped paging_not_init no_more_free_mem out_of_bound : Err
  unauthorized_interrupt_line interrupt_already_registered interrupt_not_registered : Err
