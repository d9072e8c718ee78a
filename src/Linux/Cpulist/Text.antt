-- ===== src/Linux/Cpulist/Text.antt =====
-- What `cpuinfo_linux_parse_cpulist` makes of a whole file.
use cpuinfo.Base.{
  ℕ, ◌≤◌, ◌<◌, Bool, true, ◌&&◌, some, List, [], ◌∷◌, ◌++◌, map, append-nil, Bytes, length, take,
  ◌≡◌, refl, sym, ap, ◌∙◌, arith, All, All-append, Lacks,
}
use cpuinfo.Linux.File.{FileSystem, ReadsSucceed}
use cpuinfo.Linux.Chunks.{finished}
use cpuinfo.Linux.Chunks.Pieces.{pieces_from, handle_pieces, pieces_from-append}
use cpuinfo.Linux.Chunks.Reads.{read_loop-pieces, read_loop_full}
use cpuinfo.Linux.Number.Digits.{IsDigit}
use cpuinfo.Linux.Cpulist.{buffer_size, call, parse_entry, handle_entry, close, parse_cpulist}
use cpuinfo.Linux.Cpulist.Entry.{
  IsBlank, Span, single, range, IsSpan, span_text, span_meaning, parse_entry-span, blank_ne_comma,
}

-- Entry after entry: the state of the callback, and the conjunction of the statuses.
unfoldable pub run_entries :
    {S : Type 0} → (ℕ → ℕ → S → S × Bool) → List Bytes → S × Bool → S × Bool
run_entries callback [] r = r
run_entries callback (e ∷ es) (context, status) =
    let (context', entry_status) = parse_entry callback e context in
    run_entries callback es (context', status && entry_status)

handle_pieces-run_entries :
    {S : Type 0} (callback : ℕ → ℕ → S → S × Bool) (es : List Bytes) (r : S × Bool)
    → handle_pieces (handle_entry callback) es r ≡ finished (run_entries callback es r)
unfolding handle_pieces run_entries handle_entry
handle_pieces-run_entries callback [] r = refl
handle_pieces-run_entries callback (e ∷ es) (context, status) =
    handle_pieces-run_entries callback es _

module _ (fs : FileSystem) {S : Type 0} (callback : ℕ → ℕ → S → S × Bool) (context : S)
    (reads : ReadsSucceed fs) (filename : Bytes) (f : fs.File)
    (opened : fs.open_file filename ≡ some f) where
  -- However the reads cut a file that is opened, where none fails and the fuel exceeds the length
  -- of the file: if each text between commas is shorter than the buffer, these texts are the
  -- entries, in order, and the status is that of all of them.
  pub parse_cpulist-entries :
      (fuel : ℕ)
      → length (fs.contents f) < fuel
      → All (λ e. length e < buffer_size) (pieces_from b',' [] (fs.contents f))
      → parse_cpulist fs fuel filename callback context
        ≡ some (run_entries callback (pieces_from b',' [] (fs.contents f)) (context, true))
  unfolding parse_cpulist
  parse_cpulist-entries fuel enough short = rw opened (
      ap close (
        read_loop-pieces fs b',' buffer_size (handle_entry callback) reads fuel f [] (context, true)
          enough tt short
        ∙ handle_pieces-run_entries callback _ (context, true)))

  -- In a file that is opened, where no read fails and the fuel exceeds the length of the file: if
  -- the first 256 bytes are there and hold no comma, they are the only entry: what stands behind
  -- them in the file is not parsed at all, and the status is that of the cut entry.
  pub parse_cpulist_full :
      (fuel : ℕ)
      → length (fs.contents f) < fuel
      → buffer_size ≤ length (fs.contents f)
      → Lacks b',' (take buffer_size (fs.contents f))
      → parse_cpulist fs fuel filename callback context
        ≡ some (parse_entry callback (take buffer_size (fs.contents f)) context)
  unfolding parse_cpulist
  parse_cpulist_full fuel enough full lacks = rw opened (
      ap close (
        read_loop_full fs b',' buffer_size (handle_entry callback) reads fuel f [] (context, true)
          enough (omega arith) full lacks)
      ∙ unfold handle_entry in refl)

-- An item of a list as the kernel writes them, with blanks round it.
pub record Item : Type 0 where
  pub before : Bytes
  pub span : Span
  pub after : Bytes

abbrev pub IsItem : Item → Type 0
IsItem x = All IsBlank x.before × IsSpan x.span × All IsBlank x.after

abbrev pub item_text : Item → Bytes
item_text x = x.before ++ (span_text x.span ++ x.after)

-- The items with commas between them; the list is `x` and the items behind it.
abbrev pub list_text : Item → List Item → Bytes
list_text x [] = item_text x
list_text x (y ∷ ys) = item_text x ++ b',' ∷ list_text y ys

Lacks-blanks : (ws : Bytes) → All IsBlank ws → Lacks b',' ws
Lacks-blanks [] h = tt
Lacks-blanks (c ∷ ws) (hc, h) = (blank_ne_comma c hc, Lacks-blanks ws h)

Lacks-digits : (ds : Bytes) → All IsDigit ds → Lacks b',' ds
Lacks-digits [] h = tt
Lacks-digits (c ∷ ds) (hc, h) = ((λ e. omega arith), Lacks-digits ds h)

Lacks-span : (x : Span) → IsSpan x → Lacks b',' (span_text x)
Lacks-span (single ds) h = Lacks-digits ds h.1
Lacks-span (range ds es) h =
    All-append _ ds (b'-' ∷ es) (Lacks-digits ds h.0.1) ((λ e. omega arith), Lacks-digits es h.1.1)

Lacks-item : (x : Item) → IsItem x → Lacks b',' (item_text x)
Lacks-item x h =
    All-append _ x.before (span_text x.span ++ x.after) (Lacks-blanks x.before h.0)
      (All-append _ (span_text x.span) x.after (Lacks-span x.span h.1) (Lacks-blanks x.after h.2))

pieces_from-list_text :
    (x : Item) (xs : List Item)
    → All IsItem (x ∷ xs)
    → pieces_from b',' [] (list_text x xs) ≡ map item_text (x ∷ xs)
unfolding pieces_from
pieces_from-list_text x [] (hx, h) =
    ap (λ (t : Bytes). pieces_from b',' [] t) (sym (append-nil (item_text x)))
    ∙ pieces_from-append b',' (item_text x) [] [] (Lacks-item x hx)
pieces_from-list_text x (y ∷ ys) (hx, h) =
    pieces_from-append b',' (item_text x) (b',' ∷ list_text y ys) [] (Lacks-item x hx)
    ∙ ap (λ (ps : List Bytes). item_text x ∷ ps) (pieces_from-list_text y ys h)

-- Item after item: the callback is called with what each stands for.
unfoldable pub run_items : {S : Type 0} → (ℕ → ℕ → S → S × Bool) → List Item → S × Bool → S × Bool
run_items callback [] r = r
run_items callback (x ∷ xs) (context, status) =
    let (context', item_status) = call callback (span_meaning x.span) context in
    run_items callback xs (context', status && item_status)

run_entries-items :
    {S : Type 0} (callback : ℕ → ℕ → S → S × Bool) (xs : List Item) (r : S × Bool)
    → All IsItem xs
    → run_entries callback (map item_text xs) r ≡ run_items callback xs r
unfolding run_entries run_items
run_entries-items callback [] r h = refl
run_entries-items callback (x ∷ xs) (context, status) (hx, h) =
    rw (run_entries, parse_entry-span callback x.before x.span x.after context hx.0 hx.2 hx.1)
      (run_entries-items callback xs _ h)

-- A file that is opened and holds a list of items that are each shorter than the buffer, where no
-- read fails and the fuel exceeds the length of the file: each item reaches the callback, in
-- order, with the range that it stands for, and the status is that of all the calls.
pub parse_cpulist-list_text :
    (fs : FileSystem) {S : Type 0} (callback : ℕ → ℕ → S → S × Bool) (context : S)
    → ReadsSucceed fs
    → (filename : Bytes) (f : fs.File) → fs.open_file filename ≡ some f
    → (fuel : ℕ) (x : Item) (xs : List Item) → length (fs.contents f) < fuel
    → fs.contents f ≡ list_text x xs
    → All IsItem (x ∷ xs)
    → All (λ e. length e < buffer_size) (map item_text (x ∷ xs))
    → parse_cpulist fs fuel filename callback context
      ≡ some (run_items callback (x ∷ xs) (context, true))
parse_cpulist-list_text fs callback context reads filename f opened fuel x xs enough text items
      short =
    let same : pieces_from b',' [] (fs.contents f) ≡ map item_text (x ∷ xs) =
      ap (λ (t : Bytes). pieces_from b',' [] t) text ∙ pieces_from-list_text x xs items in
    parse_cpulist-entries fs callback context reads filename f opened fuel enough (rw same short)
    ∙ rw same (ap some (run_entries-items callback (x ∷ xs) (context, true) items))
