-- ===== src/EventLoop.antt =====
-- pkg/eventloop/eventloop.go: the loop that calls the handler of the channel that is ready. A channel
-- is its pointer, a handler's function its number. A compare-and-swap that fails is tried again, so
-- that each change of the list of handlers is one step, and makes a new pointer to the list.
pub mod Search
pub mod Dispatch
mod Examples
use device.Common.{
  ℕ, zero, suc, ◌+◌, ◌-◌, ◌/◌, Bool, true, false, not, Option, none, some, List, [], ◌∷◌, ◌++◌, map,
  length, keep, leb, ltb, eqb, if◌then◌else◌,
}

pub record Handler : Type 0 where
  pub ch : ℕ
  pub h : ℕ

-- `handlers` is a pointer with the list behind it; `stored` counts the pointers that were made.
pub record Loop : Type 0 where
  pub handlers : Option (ℕ × List Handler)
  pub wake : Bool
  pub stored : ℕ

-- New
abbrev pub new_loop : Loop
new_loop = record { handlers = none; wake = false; stored = 0 }

-- Wake
unfoldable pub wake_up : Loop → Loop
wake_up el = record el { wake = true }

abbrev pub loaded : Option (ℕ × List Handler) → List Handler
loaded none = []
loaded (some (p, hs)) = hs

unfoldable pub store_handlers : List Handler → Loop → Loop
store_handlers hs el = record el { handlers = some (el.stored, hs); stored = el.stored + 1 }

-- Add
unfoldable pub add : List Handler → Loop → Loop
add h el = wake_up (store_handlers (loaded el.handlers ++ h) el)

-- sort.Slice by the pointers.
unfoldable pub insert_sorted : ℕ → List ℕ → List ℕ
insert_sorted c [] = c ∷ []
insert_sorted c (d ∷ ds) = let rest = insert_sorted c ds in if leb c d then c ∷ d ∷ ds else d ∷ rest

unfoldable pub sort : List ℕ → List ℕ
sort [] = []
sort (c ∷ cs) = insert_sorted c (sort cs)

abbrev pub get_elem? {ℓ} : {A : Type ℓ} → ℕ → List A → Option A
get_elem? n [] = none
get_elem? zero (x ∷ xs) = some x
get_elem? (suc n) (x ∷ xs) = get_elem? n xs

-- The loop of sort.Search between i and j, on fuel.
unfoldable pub search_loop : ℕ → (ℕ → Bool) → ℕ → ℕ → ℕ
search_loop zero f i j = i
search_loop (suc fuel) f i j =
    let h = (i + j) / 2 in
    let rest = search_loop fuel f (if f h then i else h + 1) (if f h then h else j) in
    if ltb i j then rest else i

-- sort.Search; each round of its loop makes the interval shorter.
unfoldable pub search : ℕ → (ℕ → Bool) → ℕ
search n f = search_loop n f 0 n

-- The test of the search; an index out of range is not reached.
abbrev pub at_least : ℕ → Option ℕ → Bool
at_least p none = true
at_least p (some c) = leb p c

abbrev pub hits : ℕ → Option ℕ → Bool
hits p none = false
hits p (some c) = eqb c p

-- The test of removeByChannels for a handler of the channel `p`.
unfoldable pub is_removed : List ℕ → ℕ → Bool
is_removed chs p = hits p (get_elem? (search (length chs) (λ i. at_least p (get_elem? i chs))) chs)

-- removeByChannels
unfoldable pub remove_by_channels : List ℕ → Loop → Loop
remove_by_channels chs el =
    store_handlers (keep (λ h. not (is_removed (sort chs) h.ch)) (loaded el.handlers)) el

-- Remove
unfoldable pub remove_handlers : List Handler → Loop → Loop
remove_handlers hs el = wake_up (remove_by_channels (map (λ h. h.ch) hs) el)

pub data Case : Type 0 where
  stop_case wake_case : Case
  recv_case : ℕ → Case

-- Run, between two rounds of its loop.
pub record Running : Type 0 where
  pub loop : Loop
  pub last_handlers : Option (ℕ × List Handler)
  pub cases : List Case

abbrev pub same_pointer : Option (ℕ × List Handler) → Option (ℕ × List Handler) → Bool
same_pointer none none = true
same_pointer (some (p, hs)) (some (q, ks)) = eqb p q
same_pointer _ _ = false

abbrev pub cases_of : List Handler → List Case
cases_of hs = stop_case ∷ wake_case ∷ map (λ h. recv_case h.ch) hs

-- getCases
unfoldable pub get_cases : Running → Running
get_cases r =
    if same_pointer r.loop.handlers r.last_handlers
    then r
    else record r { last_handlers = r.loop.handlers; cases = cases_of (loaded r.loop.handlers) }

-- The start of Run, before its first getCases.
abbrev pub start : Loop → Running
start el = record { loop = el; last_handlers = none; cases = cases_of [] }

-- What a round does: it ends the loop, goes on, calls a handler with whether its channel is closed, or
-- panics.
pub data Round : Type 0 where
  returned continued panicked : Round
  called : Handler → Bool → Round

abbrev pub call : Option Handler → Bool → Running → Round × Running
call none ok r = (panicked, r)
call (some h) true r = (called h false, r)
call (some h) false r = (called h true, record r { loop = remove_by_channels (h.ch ∷ []) r.loop })

abbrev pub dispatch : ℕ → Bool → Running → Round × Running
dispatch zero ok r = (returned, r)
dispatch (suc zero) ok r = (continued, record r { loop = record (r.loop) { wake = false } })
dispatch (suc (suc i)) ok r = call (get_elem? i (loaded r.last_handlers)) ok r

-- A round of Run, where reflect.Select returns `idx` and `ok`.
unfoldable pub round : ℕ → Bool → Running → Round × Running
round idx ok r = dispatch idx ok (get_cases r)
