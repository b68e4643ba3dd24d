-- ===== src/Interrupts/Reach.antt =====
-- What holds of the table of handlers whatever is registered and removed.
use awk.Base.{
  ℕ, ◌+◌, ◌-◌, ◌^◌, ◌<◌, ◌≤◌, ◌≡◌, ◌≢◌, refl, ap, arith, Ptr, null, ◌==◌, if◌then◌else◌, Bool-cases,
  inl, inr, ◌⊎◌, ltb, ◌||◌,
}
use awk.Run.{ok}
use awk.Err.{
  Err, no_err, null_pointer, unauthorized_interrupt_line, interrupt_already_registered,
  interrupt_not_registered,
}
use awk.Kernel.{
  Kernel, disable_local_interrupt, enable_local_interrupt, spinlock_lock, spinlock_unlock,
}
use awk.Interrupts.{
  CustomHandler, Handlers, put_handler, init_kernel_interrupt, register_interrupt_handler,
  remove_interrupt_handler, panic_int_line, spurious_int_line,
}

-- One kernel state follows from another one by calls that return.
pub data Reach : Kernel Handlers → Kernel Handlers → Type 0 where
  here : {k : Kernel Handlers} → Reach k k
  registered :
      {k l u : Kernel Handlers} (line : ℕ) (h : Ptr) (e : Err)
      → Reach k l
      → register_interrupt_handler line h l ≡ ok e u
      → Reach k u
  removed :
      {k l u : Kernel Handlers} (line : ℕ) (e : Err)
      → Reach k l
      → remove_interrupt_handler line l ≡ ok e u
      → Reach k u

-- An entry is enabled and has a handler, or neither.
abbrev pub IsEntry : CustomHandler → Type 0
IsEntry x = ((x.enabled ≡ 1) × (x.handler ≢ null)) ⊎ ((x.enabled ≡ 0) × (x.handler ≡ null))

-- So are all, and the lines of the processor's exceptions have `panic`.
pub record IsSound (panic : Ptr) (t : Handlers) : Type 0 where
  pub entries : (l : ℕ) → IsEntry (t l)
  pub exceptions : (l : ℕ) → l < 32 → (t l).handler ≡ panic

put_handler-IsSound :
    (panic : Ptr) (t : Handlers) (line : ℕ) (x : CustomHandler)
    → IsSound panic t
    → 32 ≤ line
    → IsEntry x
    → IsSound panic (put_handler t line x)
put_handler-IsSound panic t line x sound low entry = record {
  entries =
      λ l. elim (Bool-cases (l == line)) [ inl e ↦ rw e entry | inr e ↦ rw e (sound.entries l) ];
  exceptions = λ l lt. ground (arith, low, lt, sound.exceptions l);
}

-- The table is kept, or one line that is not an exception's gets an entry.
abbrev KeepsSound : Kernel Handlers → Kernel Handlers → Type 0
KeepsSound k u = (panic : Ptr) → IsSound panic k.self → IsSound panic u.self

-- The kernel behind a call that took the lock, with the table `t`.
unlocked : Kernel Handlers → Handlers → Kernel Handlers
unlocked k t = record k {
  self = t;
  int_lock_nesting =
      (if ltb k.int_lock_nesting (2 ^ 32 - 1) then k.int_lock_nesting + 1 else k.int_lock_nesting)
      - 1;
}

register_lem :
    (k : Kernel Handlers) (line : ℕ) (h : Ptr)
    → (e : Err) × (u : Kernel Handlers) × (register_interrupt_handler line h k ≡ ok e u)
      × KeepsSound k u
unfolding register_interrupt_handler spinlock_lock spinlock_unlock disable_local_interrupt
    enable_local_interrupt unlocked
register_lem k line h = elim (Bool-cases (ltb line 32 || ltb 254 line)) [
  | inl t ↦ (unauthorized_interrupt_line, k, rw t refl, λ panic sound. sound)
  | inr low ↦ elim (Bool-cases (h == null)) [
    | inl t ↦ (null_pointer, k, rw (low, t) refl, λ panic sound. sound)
    | inr some ↦ elim (Bool-cases ((k.self line).handler == null)) [
      | inl free ↦ (
        no_err,
        unlocked k (put_handler k.self line (record { enabled = 1; handler = h })),
        rw (low, some, free) refl,
        λ panic sound.
            put_handler-IsSound panic k.self line (record { enabled = 1; handler = h }) sound
              (ground (arith, low)) (inl (refl, ground (arith, some))),
      )
      | inr used ↦ (
        interrupt_already_registered,
        unlocked k k.self,
        rw (low, some, used) refl,
        λ panic sound. sound,
      )
    ]
  ]
]

remove_lem :
    (k : Kernel Handlers) (line : ℕ)
    → (e : Err) × (u : Kernel Handlers) × (remove_interrupt_handler line k ≡ ok e u)
      × KeepsSound k u
unfolding remove_interrupt_handler spinlock_lock spinlock_unlock disable_local_interrupt
    enable_local_interrupt unlocked
remove_lem k line = elim (Bool-cases (ltb line 32 || ltb 254 line)) [
  | inl t ↦ (unauthorized_interrupt_line, k, rw t refl, λ panic sound. sound)
  | inr low ↦ elim (Bool-cases ((k.self line).handler == null)) [
    | inl free ↦
        (interrupt_not_registered, unlocked k k.self, rw (low, free) refl, λ panic sound. sound)
    | inr used ↦ (
      no_err,
      unlocked k (put_handler k.self line (record { enabled = 0; handler = null })),
      rw (low, used) refl,
      λ panic sound.
          put_handler-IsSound panic k.self line (record { enabled = 0; handler = null }) sound
            (ground (arith, low)) (inr (refl, refl)),
    )
  ]
]

Reach-IsSound : {k u : Kernel Handlers} → Reach k u → KeepsSound k u
Reach-IsSound here panic sound = sound
Reach-IsSound (registered {l} {u} line h e reach step) panic sound =
    let (e', u', run, keeps) = register_lem l line h in
    let same : u' ≡ u = cc in rw same at (keeps panic (Reach-IsSound reach panic sound))
Reach-IsSound (removed {l} {u} line e reach step) panic sound =
    let (e', u', run, keeps) = remove_lem l line in
    let same : u' ≡ u = cc in rw same at (keeps panic (Reach-IsSound reach panic sound))

abbrev pub first_handlers : (panic spurious_handler : Ptr) → Handlers
first_handlers panic spurious_handler =
    put_handler
      (put_handler
        (λ l.
          if ltb l 32
          then record { enabled = 1; handler = panic }
          else record { enabled = 0; handler = null })
        panic_int_line (record { enabled = 1; handler = panic }))
      spurious_int_line (record { enabled = 1; handler = spurious_handler })

first_handlers-IsSound :
    (panic spurious_handler : Ptr)
    → panic ≢ null
    → spurious_handler ≢ null
    → IsSound panic (first_handlers panic spurious_handler)
first_handlers-IsSound panic spurious_handler ne ne' = record {
  entries = λ l. elim (Bool-cases (l == 255)) [
    | inl t ↦ rw t (inl (refl, ne'))
    | inr f ↦ elim (Bool-cases (l == 42)) [
      | inl t ↦ rw (f, t) (inl (refl, ne))
      | inr g ↦ elim (Bool-cases (ltb l 32)) [
        | inl t ↦ rw (f, g, t) (inl (refl, ne))
        | inr h ↦ rw (f, g, h) (inr (refl, refl))
      ]
    ]
  ];
  exceptions = λ l lt. ground (arith, lt);
}

-- After `init_kernel_interrupt`, and then any calls of `register_interrupt_handler` and
-- `remove_interrupt_handler`, every line is enabled and has a handler or is neither, and the lines
-- below 32, those of the processor's exceptions, have `panic`; `init_kernel_interrupt` returns no
-- error. Neither `panic` nor `spurious_handler` is `NULL`.
pub init_kernel_interrupt-IsSound :
    (k l u : Kernel Handlers) (panic spurious_handler : Ptr) (e : Err)
    → panic ≢ null
    → spurious_handler ≢ null
    → init_kernel_interrupt panic spurious_handler k ≡ ok e l
    → Reach l u
    → (e ≡ no_err) × IsSound panic u.self
unfolding init_kernel_interrupt
init_kernel_interrupt-IsSound k l u panic spurious_handler e ne ne' run reach =
    let same : record k { self = first_handlers panic spurious_handler; int_lock_nesting = 1 } ≡ l =
      cc in
    let fine : e ≡ no_err = cc in
    let table : first_handlers panic spurious_handler ≡ l.self = ap (λ j. j.self) same in
    let sound : IsSound panic l.self =
      rw table at (first_handlers-IsSound panic spurious_handler ne ne') in
    (fine, Reach-IsSound reach panic sound)
