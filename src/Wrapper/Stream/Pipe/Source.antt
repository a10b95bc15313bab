-- ===== src/Wrapper/Stream/Pipe/Source.antt =====
-- ProcessPipe keeps the pipe that it reads from.
use goxz.Base.{ℕ, zero, suc, ◌≡◌, refl, ap, subst, ◌∙◌, arith, Option, none, some, ◌⊎◌, inl, inr}
use goxz.Go.{Err, Res, ok}
use goxz.Bufpipe.Line.{LinePipes}
use goxz.Wrapper.Stream.{StreamApi}
use goxz.Wrapper.Stream.Pipe.{
  PipeRun, process_pipe, process_pipe_loop, code_round, input_of, room_of,
}

module _ (api : StreamApi) (pipes : LinePipes) where
  -- `more` is what follows where there is no error.
  stop-or-more :
      (x : Option Err) (r r' : PipeRun api pipes) (err : Option Err)
      (more : Res (PipeRun api pipes × Option Err))
      → ◌≡◌ {A = Res (PipeRun api pipes × Option Err)}
          (elim x [ some e ↦ ok (r, some e) | none ↦ more ])
          (ok (r', err))
      → (r ≡ r') ⊎ (more ≡ ok (r', err))
  stop-or-more (some e) r r' err more h = inl (ground arith)
  stop-or-more none r r' err more h = inr h

  abbrev pub Source : pipes.BufferPipe → PipeRun api pipes → Type 0
  Source p r = (q : pipes.BufferPipe) × (r.src ≡ some q) × (pipes.capacity q ≡ pipes.capacity p)

  Source-stop :
      (p : pipes.BufferPipe) (r r' : PipeRun api pipes) → Source p r → r ≡ r' → Source p r'
  Source-stop p r r' s h = subst (Source p) h s

  Source-code_round :
      (action : ℕ) (p : pipes.BufferPipe) (r : PipeRun api pipes)
      → Source p r
      → Source p (code_round api pipes action r).0
  unfolding code_round
  Source-code_round action p r (q, h, c) =
      let taken =
        (api.lzma_code r.coder action (room_of api pipes r.dst).0 (input_of api pipes r.src).0).3 in
      let (s, k, d) = pipes.read_mark_some q taken in
      (s, ap (λ x. pipes.read_mark x taken) h ∙ k, d ∙ c)

  process_pipe_loop-Source :
      (fuel action : ℕ) (p : pipes.BufferPipe) (r r' : PipeRun api pipes) (err : Option Err)
      → Source p r
      → process_pipe_loop api pipes fuel action r ≡ ok (r', err)
      → Source p r'
  unfolding process_pipe_loop
  process_pipe_loop-Source zero action p r r' err s h = absurd (ground arith)
  process_pipe_loop-Source (suc fuel) action p r r' err s h =
      let next = (code_round api pipes action r).0 in
      elim (stop-or-more (input_of api pipes r.src).1 r r' err _ h) [
        | inl e ↦ Source-stop p r r' s e
        | inr h1 ↦ elim (stop-or-more (room_of api pipes r.dst).1 r r' err _ h1) [
          | inl e ↦ Source-stop p r r' s e
          | inr h2 ↦ elim (stop-or-more (code_round api pipes action r).1 next r' err _ h2) [
            | inl e ↦ Source-stop p next r' (Source-code_round action p r s) e
            | inr h3 ↦
                process_pipe_loop-Source fuel action p next r' err (Source-code_round action p r s)
                  h3
          ]
        ]
      ]

  pub process_pipe-Source :
      (fuel action : ℕ) (p : pipes.BufferPipe) (r r' : PipeRun api pipes) (err : Option Err)
      → r.src ≡ some p
      → process_pipe api pipes fuel action r ≡ ok (r', err)
      → Source p r'
  unfolding process_pipe
  process_pipe-Source fuel action p r r' err s h =
      process_pipe_loop-Source fuel action p r r' err (p, s, refl) (rw (process_pipe, s) at h)
