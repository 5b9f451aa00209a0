-- ===== src/Log/Holds.antt =====
-- kernel/log.c: the calls of a cycle, and the log blocks that they leave.
use tux3_fuse.Prelude.{
  subst, not_ltb→le, ◌⊎◌, ℕ, ◌+◌, ◌-◌, ◌≤◌, ◌≡◌, refl, ap, ◌∙◌, sym, Option, none, some, List, [],
  ◌∷◌, ◌++◌, arith, length, length-append, replicate, Bool-cases, inl, inr, Bool, ◌||◌, not,
}
use mathlib.Core.List.{append-nil, append_assoc}
use tux3_fuse.Log.{
  false, store, finish_block, Log, LogBlock, lacks_room, log_begin, log_end, log_finish, log_next,
  log_size, Code,
}
use tux3_fuse.Log.Entry.{
  check, legal, Entry, stored, code, log_call, log_call-stored, length-stored,
}

abbrev pub bytes_of : List Entry → List ℕ
bytes_of [] = []
bytes_of (e ∷ es) = stored e ++ bytes_of es

-- A finished block that holds the entries `es`: its header counts their bytes, which lead its body, and
-- the body fills the block.
pub record BlockHolds (space : ℕ) (b : LogBlock) (es : List Entry) : Type 0 where
  pub counts : b.bytes ≡ length (bytes_of es)
  pub leads : b.body ≡ bytes_of es ++ replicate (space - b.bytes) 0
  pub fits : b.bytes ≤ space

abbrev pub BlocksHold : ℕ → List LogBlock → List (List Entry) → Type 0
BlocksHold space [] [] = Unit {0}
BlocksHold space (b ∷ bs) (es ∷ ess) = BlockHolds space b es × BlocksHold space bs ess
BlocksHold space _ _ = ⊥

abbrev pub concat : List (List Entry) → List Entry
concat [] = []
concat (es ∷ ess) = es ++ concat ess

-- The open block, if there is one, holds `current`, within the space.
pub record OpenHolds (log : Log) (current : List Entry) : Type 0 where
  pub written : (log.logbuf ≡ some (bytes_of current)) ⊎ ((log.logbuf ≡ none) × (current ≡ []))
  pub room : length (bytes_of current) ≤ log.space

-- The log holds the entries `es`, in order, each of them whole in one block.
pub record Holds (log : Log) (es : List Entry) : Type 0 where
  pub before : List (List Entry)
  pub current : List Entry
  pub finished : BlocksHold log.space log.done before
  pub open_block : OpenHolds log current
  pub together : es ≡ concat before ++ current

pub bytes_of-append : (xs ys : List Entry) → bytes_of (xs ++ ys) ≡ bytes_of xs ++ bytes_of ys
bytes_of-append [] ys = refl
bytes_of-append (x ∷ xs) ys =
    rw (bytes_of-append xs ys) (sym (append_assoc (stored x) (bytes_of xs) (bytes_of ys)))

concat-snoc :
    (ess : List (List Entry)) (es : List Entry) → concat (ess ++ es ∷ []) ≡ concat ess ++ es
concat-snoc [] es = append-nil es
concat-snoc (x ∷ ess) es = rw (concat-snoc ess es) (sym (append_assoc x (concat ess) es))

BlocksHold-snoc :
    (space : ℕ) (bs : List LogBlock) (ess : List (List Entry)) (b : LogBlock) (es : List Entry)
    → BlocksHold space bs ess
    → BlockHolds space b es
    → BlocksHold space (bs ++ b ∷ []) (ess ++ es ∷ [])
BlocksHold-snoc space [] [] b es h k = (k, tt)
BlocksHold-snoc space (x ∷ bs) (xs ∷ ess) b es h k = (h.0, BlocksHold-snoc space bs ess b es h.1 k)
BlocksHold-snoc space [] (xs ∷ ess) b es h k = absurd h
BlocksHold-snoc space (x ∷ bs) [] b es h k = absurd h

finish_block-Holds :
    (log : Log) (o : Option (List ℕ)) (es : List Entry)
    → o ≡ log.logbuf
    → Holds log es
    → Holds (finish_block log o) es × ((finish_block log o).logbuf ≡ none)
finish_block-Holds log none es e h = (h, sym e)
finish_block-Holds log (some data_bytes) es e h = (
  record {
    before = h.before ++ h.current ∷ [];
    current = [];
    finished = BlocksHold-snoc log.space log.done h.before _ h.current h.finished (record {
      counts = ap length same;
      leads = ap (λ (l : List ℕ). l ++ replicate (log.space - length data_bytes) 0) same;
      fits = omega (arith, h.open_block.room, ap length same);
    });
    open_block = record { written = inr (refl, refl); room = omega arith };
    together = h.together ∙ sym (append-nil _ ∙ concat-snoc h.before h.current);
  },
  refl,
)
  where
    same : data_bytes ≡ bytes_of h.current
    same = elim h.open_block.written [ inl w ↦ cc (e ∙ w) | inr (w, c) ↦ cc (e, w) ]

-- `log_finish` closes the open block and loses nothing.
pub log_finish-Holds :
    (log : Log) (es : List Entry)
    → Holds log es
    → Holds (log_finish log) es × ((log_finish log).logbuf ≡ none)
unfolding log_finish
log_finish-Holds log es h = finish_block-Holds log log.logbuf es refl h

-- A log whose open block has room for `n` bytes more.
record Ready (log : Log) (n : ℕ) (es : List Entry) (space : ℕ) : Type 0 where
  holds : Holds log es
  opened : log.logbuf ≡ some (bytes_of holds.current)
  enough : length (bytes_of holds.current) + n ≤ log.space
  same_space : log.space ≡ space

started :
    (log : Log) (n space : ℕ) (es : List Entry)
    → log.space ≡ space
    → n ≤ space
    → Holds log es
    → log.logbuf ≡ none
    → Ready (log_next log) n es space
unfolding log_next
started log n space es s h k e = record {
  holds = record {
    before = k.before;
    current = [];
    finished = k.finished;
    open_block = record { written = inl refl; room = omega arith };
    together = k.together ∙ ap (λ (l : List Entry). concat k.before ++ l) empty;
  };
  opened = refl;
  enough = omega arith;
  same_space = s;
}
  where
    empty : k.current ≡ []
    empty = elim k.open_block.written [ inl w ↦ cc (e, w) | inr (w, c) ↦ c ]

asserted-finish : (log : Log) (o : Option (List ℕ)) → (finish_block log o).asserted ≡ log.asserted
asserted-finish log none = refl
asserted-finish log (some data_bytes) = refl

log_begin-asserted : (log : Log) (n : ℕ) → (log_begin log n).asserted ≡ log.asserted
unfolding log_begin log_next log_finish
log_begin-asserted log n = elim (Bool-cases (lacks_room log.space log.logbuf n)) [
  | inl full ↦ rw full (asserted-finish log log.logbuf)
  | inr room ↦ rw room refl
]

-- An assert changes nothing else.
check-Ready :
    (holds : Bool) (log : Log) (n space : ℕ) (es : List Entry)
    → Ready log n es space
    → Ready (check holds log) n es space
check-Ready holds log n space es r = record {
  holds = record {
    before = r.holds.before;
    current = r.holds.current;
    finished = r.holds.finished;
    open_block = record { written = r.holds.open_block.written; room = r.holds.open_block.room };
    together = r.holds.together;
  };
  opened = r.opened;
  enough = r.enough;
  same_space = r.same_space;
}

space-finish : (log : Log) (o : Option (List ℕ)) → (finish_block log o).space ≡ log.space
space-finish log none = refl
space-finish log (some data_bytes) = refl

log_begin-Ready :
    (log : Log) (n : ℕ) (es : List Entry)
    → n ≤ log.space
    → Holds log es
    → Ready (log_begin log n) n es log.space
unfolding log_begin
log_begin-Ready log n es h k = elim (Bool-cases (lacks_room log.space log.logbuf n)) [
  | inl full ↦ rw full (
      let (k', e) = finish_block-Holds log log.logbuf es refl k in
      started (finish_block log log.logbuf) n log.space es (space-finish log log.logbuf) h k' e)
  | inr room ↦ rw room (elim k.open_block.written [
    | inl w ↦ record {
      holds = k;
      opened = w;
      enough = not_ltb→le log.space _ (ap (λ o. lacks_room log.space o n) (sym w) ∙ room);
      same_space = refl;
    }
    | inr (w, c) ↦ cc (ap (λ o. lacks_room log.space o n) w, room)
  ])
]

log_end-Holds :
    (log : Log) (e : Entry) (es : List Entry) (space : ℕ)
    → Ready log (log_size (code e)) es space
    → Holds (log_end log (stored e)) (es ++ e ∷ [])
unfolding log_end
log_end-Holds log e es space r = record {
  before = r.holds.before;
  current = r.holds.current ++ e ∷ [];
  finished = r.holds.finished;
  open_block = record {
    written = inl (ap (λ o. store o (stored e)) r.opened ∙ ap some (sym longer));
    room = omega (
      arith,
      r.enough,
      length-stored e,
      ap length longer,
      length-append (bytes_of r.holds.current) (stored e),
    );
  };
  together =
      ap (λ (l : List Entry). l ++ e ∷ []) r.holds.together
      ∙ append_assoc (concat r.holds.before) r.holds.current (e ∷ []);
}
  where
    longer : bytes_of (r.holds.current ++ e ∷ []) ≡ bytes_of r.holds.current ++ stored e
    longer =
        bytes_of-append r.holds.current (e ∷ [])
        ∙ ap (λ (l : List ℕ). bytes_of r.holds.current ++ l) (append-nil (stored e))

log_size-le : (c : Code) → log_size c ≤ 26
log_size-le c = ground arith

-- A log call adds its entry at the end of what the log holds, whichever block it goes to, as long as a
-- block has room for the largest entry. An assert fails exactly for a new root of other than one or two entries.
pub log_call-Holds :
    (log : Log) (e : Entry) (es : List Entry)
    → 26 ≤ log.space
    → Holds log es
    → Holds (log_call log e) (es ++ e ∷ [])
      × ((log_call log e).space ≡ log.space)
      × ((log_call log e).asserted ≡ (log.asserted || not (legal e)))
log_call-Holds log e es h k = rw (log_call-stored log e) (
    let r = log_begin-Ready log (log_size (code e)) es (omega (arith, log_size-le (code e))) k in
    (
      log_end-Holds (check (legal e) (log_begin log (log_size (code e)))) e es log.space (
          check-Ready (legal e) (log_begin log (log_size (code e))) (log_size (code e)) log.space es
            r),
      unfold log_end in r.same_space,
      unfold log_end in
          ap (λ (b : Bool). b || not (legal e)) (log_begin-asserted log (log_size (code e))),
    ))

-- the calls of a cycle, in order
pub log_calls : Log → List Entry → Log
log_calls log [] = log
log_calls log (e ∷ es) = log_calls (log_call log e) es

pub log_calls-Holds :
    (log : Log) (before es : List Entry)
    → 26 ≤ log.space
    → Holds log before
    → Holds (log_calls log es) (before ++ es) × ((log_calls log es).space ≡ log.space)
unfolding log_calls
log_calls-Holds log before [] h k = rw (append-nil before) (k, refl)
log_calls-Holds log before (e ∷ es) h k =
    let (k₁, s₁, a₁) = log_call-Holds log e before h k in
    let (k₂, s₂) = log_calls-Holds (log_call log e) (before ++ e ∷ []) es (omega arith) k₁ in
    (subst (Holds (log_calls (log_call log e) es)) (append_assoc before (e ∷ []) es) k₂, s₂ ∙ s₁)

-- the log at the start of a delta cycle
abbrev pub empty_log : ℕ → Log
empty_log space = record { space = space; done = []; logbuf = none; asserted = false }

pub empty_log-Holds : (space : ℕ) → Holds (empty_log space) []
empty_log-Holds space = record {
  before = [];
  current = [];
  finished = tt;
  open_block = record { written = inr (refl, refl); room = omega arith };
  together = refl;
}

-- The blocks that a cycle of log calls leaves, once finished, hold its entries in order, each of them
-- whole in one block, with the header counting their bytes and the body filled up to the block's size.
pub log_finish-log_calls :
    (space : ℕ) (es : List Entry)
    → 26 ≤ space
    → let log = log_finish (log_calls (empty_log space) es) in
      (log.logbuf ≡ none)
      × ((ess : List (List Entry)) × BlocksHold log.space log.done ess × (es ≡ concat ess))
log_finish-log_calls space es h =
    let (k, s) = log_calls-Holds (empty_log space) [] es h (empty_log-Holds space) in
    let (f, closed) = log_finish-Holds (log_calls (empty_log space) es) es k in
    (
      closed,
      (
        f.before,
        f.finished,
        f.together
            ∙ ap (λ (l : List Entry). concat f.before ++ l) (no_current f closed)
            ∙ append-nil (concat f.before),
      ),
    )
  where
    no_current : {log : Log} (f : Holds log es) → log.logbuf ≡ none → f.current ≡ []
    no_current f closed = elim f.open_block.written [ inl w ↦ cc (w, closed) | inr (w, c) ↦ c ]
