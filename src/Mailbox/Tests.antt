-- ===== src/Mailbox/Tests.antt =====
-- The theorems on mailboxes at concrete mailboxes.
use awk.Base.{ℕ, ◌≡◌, refl, [], arith, Ptr}
use awk.Run.{ok, ◌>>◌}
use awk.Err.{no_err}
use awk.Kernel.{BlockType, Kernel, object}
use awk.Mailbox.{Mailbox, mailbox_pend, mailbox_post}
use awk.Mailbox.Pass.{mailbox_pend-post}
use awk.Samples.{sample_kernel, no_switch, empty-IsList}

-- `box s l` holds the pointer 77 if `s` is 1; `l` is the list of the threads that wait for it.
abbrev box : ℕ → Ptr → Mailbox
box s l = record {
  value = 77;
  init = 1;
  state = s;
  read_waiting_threads = l;
  write_waiting_threads = l;
}

abbrev kernel : Mailbox → Kernel Mailbox
kernel m = sample_kernel BlockType.queue m

mailbox_pend-post_example :
    (mailbox_post 3 [] no_switch object 88 >> mailbox_pend 3 [] no_switch object)
      (kernel (box 0 30))
    ≡ ok (88, no_err) (kernel (record (box 0 30) { value = 88 }))
mailbox_pend-post_example =
    mailbox_pend-post (kernel (box 0 30)) 3 [] no_switch 88 (omega arith) refl refl empty-IsList
      empty-IsList
