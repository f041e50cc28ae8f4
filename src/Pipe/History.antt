-- ===== src/Pipe/History.antt =====
-- A pipe (pipe.c) in use: any passes of readers and writers after `pipealloc`, in any order, and a
-- close of one end. The bytes come out as they went in.
use ele.Pipe.Bytes.{piperead-Takes, pipewrite-Fills, append_nil, room, append_assoc, take-nil}
use ele.Pipe.Window.{contents, length-window, used, IsValid}
use ele.Pipe.{Pipe, pipealloc, pipeclose, pipewrite, Channel, piperead, PipeFile, pipe_size, opened}
use ele.Base.{
  ℕ, zero, suc, ◌-◌, ◌≤◌, ◌≡◌, refl, sym, ap, ap₂, ◌∙◌, subst, inl, inr, Bool, true, false, Option,
  none, some, List, [], ◌∷◌, ◌++◌, arith, length, take, drop,
}

-- The bytes of `bs` that a pass of `pipewrite` has taken.
unfoldable pub accepted : List ℕ → List ℕ → List ℕ
accepted bs rest = take (length bs - length rest) bs

-- `Uses p ins outs`: the pipe may be `p` after the bytes `ins` went in and `outs` came out.
pub data Uses : Pipe → List ℕ → List ℕ → Type 0 where
  allocates :
      (f0 f1 : Option ℕ) (page : List ℕ) (r w : PipeFile) {p : Pipe}
      → length page ≡ pipe_size
      → pipealloc f0 f1 (some page) ≡ opened r w p
      → Uses p [] []
  writes :
      {p : Pipe} {ins outs : List ℕ} (killed : Bool) (bs : List ℕ)
      → Uses p ins outs
      → Uses (pipewrite killed bs p).pipe (ins ++ accepted bs (pipewrite killed bs p).rest) outs
  reads :
      {p : Pipe} {ins outs : List ℕ} (killed : Bool) (n : ℕ)
      → Uses p ins outs
      → Uses (piperead killed n p).pipe ins (outs ++ (piperead killed n p).bytes)
  closes :
      {p q : Pipe} {ins outs : List ℕ} (writable : Bool) (c : Channel)
      → Uses p ins outs
      → pipeclose writable p ≡ (c, some q)
      → Uses q ins outs

record Flows (p : Pipe) (ins outs : List ℕ) : Type 0 where
  pub valid : IsValid p
  pub flow : ins ≡ outs ++ contents p

length-drop : (k : ℕ) (bs : List ℕ) → length (drop k bs) ≡ length bs - k
length-drop zero bs = omega arith
length-drop (suc k) [] = omega arith
length-drop (suc k) (b ∷ bs) = omega (arith, length-drop k bs)

take_all : (k : ℕ) (bs : List ℕ) → take (length bs - (length bs - k)) bs ≡ take k bs
take_all k [] = take-nil (0 - (0 - k)) ∙ sym (take-nil k)
take_all zero (b ∷ bs) =
    let nothing_left : suc (length bs) - (suc (length bs) - 0) ≡ 0 = omega arith in
    ap (λ n. take n (b ∷ bs)) nothing_left
take_all (suc k) (b ∷ bs) =
    let one : suc (length bs) - (suc (length bs) - suc k) ≡ suc (length bs - (length bs - k)) =
      omega arith in
    ap (λ n. take n (b ∷ bs)) one ∙ ap (λ w. b ∷ w) (take_all k bs)

take-drop : (n : ℕ) (bs : List ℕ) → take n bs ++ drop n bs ≡ bs
take-drop zero bs = refl
take-drop (suc n) [] = refl
take-drop (suc n) (b ∷ bs) = ap (λ w. b ∷ w) (take-drop n bs)

accepted-drop : (k : ℕ) (bs : List ℕ) → accepted bs (drop k bs) ≡ take k bs
unfolding accepted
accepted-drop k bs = ap (λ n. take (length bs - n) bs) (length-drop k bs) ∙ take_all k bs

pipealloc-Flows :
    (f0 f1 : Option ℕ) (page : List ℕ) {r w : PipeFile} {p : Pipe}
    → length page ≡ pipe_size
    → pipealloc f0 f1 (some page) ≡ opened r w p
    → Flows p [] []
unfolding pipealloc
pipealloc-Flows none f1 page l e = cc
pipealloc-Flows (some a) none page l e = cc
pipealloc-Flows (some a) (some b) page {p = p} l e =
    let made : record {
      data_bytes = page;
      nread = 0;
      nwrite = 0;
      read_open = true;
      write_open = true;
    }
        ≡ p =
      cc e in
    subst (λ x. Flows x [] []) made
      (record {
        valid = record {
          sized = l;
          reads = omega arith;
          writes = omega arith;
          bounded = omega arith;
        };
        flow = refl;
      })

pipewrite-Flows :
    (killed : Bool) (bs : List ℕ) {p : Pipe} {ins outs : List ℕ}
    → Flows p ins outs
    → Flows (pipewrite killed bs p).pipe (ins ++ accepted bs (pipewrite killed bs p).rest) outs
pipewrite-Flows killed bs {p} {ins} {outs} k =
    let f = pipewrite-Fills killed bs p k.valid in
    record {
      valid = f.valid;
      flow =
          ap (λ x. ins ++ accepted bs x) f.left
          ∙ ap (λ x. ins ++ x) (accepted-drop (room p) bs)
          ∙ ap (λ x. x ++ take (room p) bs) k.flow
          ∙ append_assoc outs (contents p) (take (room p) bs)
          ∙ ap (λ x. outs ++ x) (sym f.filled);
    }

piperead-Flows :
    (killed : Bool) (n : ℕ) {p : Pipe} {ins outs : List ℕ}
    → Flows p ins outs
    → Flows (piperead killed n p).pipe ins (outs ++ (piperead killed n p).bytes)
piperead-Flows killed n {p} {ins} {outs} k = elim (piperead-Takes killed n p k.valid) [
  | inl (_, _, e) ↦ rw e (record {
    valid = k.valid;
    flow = k.flow ∙ ap (λ x. x ++ contents p) (sym (append_nil outs));
  })
  | inr (_, t) ↦ record {
    valid = t.valid;
    flow =
        k.flow
        ∙ ap (λ x. outs ++ x) (sym (take-drop n (contents p)))
        ∙ sym (append_assoc outs (take n (contents p)) (drop n (contents p)))
        ∙ ap₂ (λ x y. (outs ++ x) ++ y) (sym t.taken) (sym t.left);
  }
]

flags-Flows :
    (a b : Bool) {p : Pipe} {ins outs : List ℕ}
    → Flows p ins outs
    → Flows (record p { read_open = a; write_open = b }) ins outs
flags-Flows a b k = record {
  valid = record {
    sized = k.valid.sized;
    reads = k.valid.reads;
    writes = k.valid.writes;
    bounded = k.valid.bounded;
  };
  flow = k.flow;
}

-- A `pipeclose` that keeps the pipe has changed its flags only.
pipeclose-flags :
    (writable : Bool) (p : Pipe) {q : Pipe} {c : Channel}
    → pipeclose writable p ≡ (c, some q)
    → (a b : Bool) × (record p { read_open = a; write_open = b } ≡ q)
unfolding pipeclose
pipeclose-flags true p e = (p.read_open, false, ground arith)
pipeclose-flags false p e = (false, p.write_open, ground arith)

pipeclose-Flows :
    (writable : Bool) {p q : Pipe} {ins outs : List ℕ} {c : Channel}
    → pipeclose writable p ≡ (c, some q)
    → Flows p ins outs
    → Flows q ins outs
pipeclose-Flows writable {p} {ins = ins} {outs = outs} e k =
    let (a, b, same) = pipeclose-flags writable p e in
    subst (λ x. Flows x ins outs) same (flags-Flows a b k)

Uses-Flows : {p : Pipe} {ins outs : List ℕ} → Uses p ins outs → Flows p ins outs
Uses-Flows (allocates f0 f1 page r w l e) = pipealloc-Flows f0 f1 page l e
Uses-Flows (writes killed bs u) = pipewrite-Flows killed bs (Uses-Flows u)
Uses-Flows (reads killed n u) = piperead-Flows killed n (Uses-Flows u)
Uses-Flows (closes writable c u e) = pipeclose-Flows writable e (Uses-Flows u)

-- Whatever readers and writers do with a new pipe, the bytes that went in are those that came out,
-- in the same order, followed by those in the pipe, which are at most `PIPESIZE`.
pub Uses-fifo :
    {p : Pipe} {ins outs : List ℕ}
    → Uses p ins outs
    → (ins ≡ outs ++ contents p) × (length (contents p) ≤ pipe_size)
Uses-fifo {p} u =
    let k = Uses-Flows u in
    (k.flow, omega (arith, length-window p.data_bytes p.nread (used p), k.valid.bounded))
