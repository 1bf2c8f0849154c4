-- ===== src/RolloutDraft/Coverage.antt =====
-- The results before and after addDeviceGenerations (internal/database/rollout_drafts.go).
use openwrt_controller.Base.{
  ℕ, ◌≡◌, refl, Bool, true, false, ◌||◌, List, [], ◌∷◌, Text, All, all, any, Result, ok, err, arith,
  text_eq, inl, inr, Option, some, none, Pointwise, nil, cons, Option-cases,
}
use openwrt_controller.Schema.{Error, RunResult}
use openwrt_controller.RolloutDraft.Queueing.{
  Generations, lookup, is_waiting, is_seen, add_entry, prepend, add_entries, add_device_generations,
}

abbrev device_is : Option Text → Text → Bool
device_is none k = false
device_is (some d) k = text_eq d k

-- An entry before and after: its device has its generation, or is WAITING and unchanged.
pub record IsGenerated (g : Generations) (r r' : RunResult) : Type 0 where
  pub rest_same : record r { device_generation = r'.device_generation } ≡ r'
  pub generation :
      (device_id : Text) (n : ℕ)
      → r.device_id ≡ some device_id
      → lookup device_id g ≡ some n
      → r'.device_generation ≡ some n
  pub waiting :
      (device_id : Text)
      → r.device_id ≡ some device_id
      → lookup device_id g ≡ none
      → (is_waiting r.status ≡ true) × (r' ≡ r)

prepend-ok :
    (r : RunResult) (m : Result Error (List RunResult × List Text)) (out : List RunResult)
    (seen' : List Text)
    → prepend r m ≡ ok (out, seen')
    → (rs' : List RunResult) × (out ≡ r ∷ rs') × (m ≡ ok (rs', seen'))
prepend-ok r (err x) out seen' h = absurd (ground arith)
prepend-ok r (ok (rs, s)) out seen' h = (rs, ground arith, ground arith)

-- What one round of the loop did when the whole succeeds.
record RoundDone (g : Generations) (seen : List Text) (r : RunResult)
    (next : List Text → Result Error (List RunResult × List Text)) (out : List RunResult)
    (seen' : List Text) : Type 0 where
  device_id : Text
  written : RunResult
  later : List RunResult
  named : r.device_id ≡ some device_id
  out_is : out ≡ written ∷ later
  generated : IsGenerated g r written
  next_is : next (device_id ∷ seen) ≡ ok (later, seen')

add_entry-ok :
    (g : Generations) (seen : List Text) (r : RunResult)
    (next : List Text → Result Error (List RunResult × List Text)) (out : List RunResult)
    (seen' : List Text)
    → add_entry g seen r r.device_id next ≡ ok (out, seen')
    → RoundDone g seen r next out seen'
unfolding add_entry
add_entry-ok g seen r next out seen' h = elim (Option-cases r.device_id) [
  | inl n ↦ absurd (ground (arith, n))
  | inr (device_id, named) ↦ elim (Option-cases (lookup device_id g)) [
    | inl missing ↦
        let w : is_waiting r.status ≡ true = ground (arith, named, missing) in
        let h' : prepend r (next (device_id ∷ seen)) ≡ ok (out, seen') =
          ground (arith, named, missing, w) in
        let (later, out_is, next_is) = prepend-ok r (next (device_id ∷ seen)) out seen' h' in
        record {
          device_id = device_id;
          written = r;
          later = later;
          named = named;
          out_is = out_is;
          generated = record {
            rest_same = refl;
            generation = λ d n e l. absurd (ground (arith, named, missing));
            waiting = λ d e l. (w, refl);
          };
          next_is = next_is;
        }
    | inr (n, found) ↦
        let r' : RunResult = record r { device_generation = some n } in
        let h' : prepend r' (next (device_id ∷ seen)) ≡ ok (out, seen') =
          ground (arith, named, found) in
        let (later, out_is, next_is) = prepend-ok r' (next (device_id ∷ seen)) out seen' h' in
        record {
          device_id = device_id;
          written = r';
          later = later;
          named = named;
          out_is = out_is;
          generated = record {
            rest_same = refl;
            generation = λ d m e l. ground (arith, named, found);
            waiting = λ d e l. absurd (ground (arith, named, found));
          };
          next_is = next_is;
        }
  ]
]

-- The loop: the entries are written in place, and every device seen names an entry.
add_entries-Generated :
    (g : Generations) (seen : List Text) (rs out : List RunResult) (seen' : List Text)
    → add_entries g seen rs ≡ ok (out, seen')
    → Pointwise (IsGenerated g) rs out
unfolding add_entries
add_entries-Generated g seen [] out seen' h = rw out_nil nil
  where
    out_nil : out ≡ []
    out_nil = ground arith
add_entries-Generated g seen (r ∷ rs) out seen' h =
    let done = add_entry-ok g seen r (λ s. add_entries g s rs) out seen' h in
    rw done.out_is (
      cons done.generated
        (add_entries-Generated g (done.device_id ∷ seen) rs done.later seen' done.next_is))

-- Some entry names the device.
abbrev pub names_device : Text → List RunResult → Bool
names_device k rs = any (λ r. device_is r.device_id k) rs

add_entries-seen :
    (g : Generations) (seen : List Text) (rs out : List RunResult) (seen' : List Text) (k : Text)
    → add_entries g seen rs ≡ ok (out, seen')
    → is_seen k seen' ≡ true
    → (is_seen k seen || names_device k rs) ≡ true
unfolding add_entries
add_entries-seen g seen [] out seen' k h s = ground arith
add_entries-seen g seen (r ∷ rs) out seen' k h s =
    let done = add_entry-ok g seen r (λ z. add_entries g z rs) out seen' h in
    ground (
      arith,
      done.named,
      add_entries-seen g (done.device_id ∷ seen) rs done.later seen' k done.next_is s,
    )

all_seen :
    (g : Generations) (seen : List Text)
    → all (λ e. is_seen e.0 seen) g ≡ true
    → All (λ e. is_seen e.0 seen ≡ true) g
all_seen [] seen h = tt
all_seen (e ∷ g) seen h = (ground arith, all_seen g seen (ground arith))

All-map {ℓ} :
    {A : Type 0} {P Q : A → Type ℓ} (xs : List A) → ((x : A) → P x → Q x) → All P xs → All Q xs
All-map [] f a = tt
All-map (x ∷ xs) f a = (f x a.0, All-map xs f a.1)

-- When addDeviceGenerations succeeds, the results keep their number and order; an entry of a device
-- with a generation gets that generation and no other change; every other entry is a WAITING one, as
-- it was; and every device with a generation has an entry.
pub add_device_generations-covers :
    (g : Generations) (rs out : List RunResult)
    → add_device_generations g rs ≡ ok out
    → Pointwise (IsGenerated g) rs out × All (λ e. names_device e.0 rs ≡ true) g
unfolding add_device_generations
add_device_generations-covers g rs out h = from (add_entries g [] rs) refl
  where
    from :
        (m : Result Error (List RunResult × List Text))
        → add_entries g [] rs ≡ m
        → Pointwise (IsGenerated g) rs out × All (λ e. names_device e.0 rs ≡ true) g
    from (err x) e = absurd (ground arith)
    from (ok (rs', seen')) e =
        let same : rs' ≡ out = ground arith in
        let e' : add_entries g [] rs ≡ ok (out, seen') = (rw same at e) in
        (
          add_entries-Generated g [] rs out seen' e',
          All-map g (λ x s. add_entries-seen g [] rs out seen' x.0 e' s)
              (all_seen g seen' (ground arith)),
        )
