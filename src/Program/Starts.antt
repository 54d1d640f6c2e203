-- ===== src/Program/Starts.antt =====
-- How `main` of src/main.cpp starts.
use bpf_program.Base.{ℕ, ◌≡◌, refl, sym, ap, ◌∙◌, Bool, true, false, some, List, ◌∷◌, length, arith}
use bpf_program.Base.Int.{pos}
use bpf_program.Buffer.Word.{IsBytes}
use bpf_program.Buffer.{StaticBuffer}
use bpf_program.Buffer as Buffer
use bpf_program.Kernel.{Kernel, error}
use bpf_program.Kernel.Laws.{IsKernel, opened}
use bpf_program.Text.Files.{read_file_total}
use bpf_program.Executor.{new_formater, new_executor, executor_of}
use bpf_program.Socket as Socket
use bpf_program.Socket.{close_socket}
use bpf_program.Socket.Ownership.{close_socket-opened}
use bpf_program.Engine.Setup.{BpfEngine, program_path, with_executor, new_engine}
use bpf_program.Engine.Setup.Sockets.{IsReady, filled_in, setup-IsReady}
use bpf_program.Pipeline.{launched}
use bpf_program.Pipeline.Works.{IsEmpty}
use bpf_program.Program.{
  settings, buffer_size, Arrays, Outcome, returned, running, after_setup, with_engine, main,
}

-- Of the type of the engine's array.
pub record IsArray (bytes : List ℕ) : Type 0 where
  pub bytes_range : IsBytes bytes
  pub bytes_length : length bytes ≡ buffer_size

new_engine-content :
    (content : List ℕ → List ℕ)
    → new_engine content
      ≡ some (record { executor = record { bpf_prog = content program_path }; socket = Socket.new })
unfolding new_engine new_executor new_formater
new_engine-content content =
    ap (λ o. with_executor (executor_of o)) (read_file_total (content program_path))

new-IsEmpty : (bytes : List ℕ) → IsArray bytes → IsEmpty (Buffer.new bytes)
new-IsEmpty bytes h = record {
  written_eq = refl;
  start = refl;
  room = omega (arith, h.bytes_length);
  small = omega (arith, h.bytes_length);
  bytes = h.bytes_range;
}

module _ {F W : Type 0} {k : Kernel W} (law : IsKernel k) where
  open law use {sockets}

  -- `main` returns with the sockets that were open before, or its threads run: then one socket
  -- more is open, the engine's, the program's text has its marks replaced, and the engine's buffer
  -- is empty with room for a packet.
  unfoldable pub Starts : List ℕ → List ℕ → Outcome F W → Type 0
  Starts fds text (returned w) = sockets w ≡ fds
  Starts fds text (running p e w) =
      (fd : ℕ) × (e.socket ≡ pos fd)
      × (sockets w ≡ fd ∷ fds)
      × (e.executor.bpf_prog ≡ text)
      × IsEmpty p.buffer
      × ((read : StaticBuffer) × (p ≡ launched p.buffer p.exchange.storage read))

  after_setup-Starts :
      (fds text : List ℕ) (a : Arrays) (r : Bool × BpfEngine × W)
      → IsArray a.own
      → IsReady law fds error text r
      → (o : Outcome F W) × (after_setup k a (some r) ≡ some o) × Starts fds text o
  unfolding after_setup IsReady Starts
  after_setup-Starts fds text a (true, e, w) h (fd, owned, one_more, same) =
      (_, refl, (fd, owned, one_more, same, new-IsEmpty a.own h, (Buffer.new a.read, refl)))
  after_setup-Starts fds text a (false, e, w) h (none_new, as_before, same) =
      let owns = as_before ∙ ap (λ s. opened s fds) (sym none_new) in
      (_, refl, close_socket-opened law fds e.socket error w owns)

  -- On every content of the files and whichever call of the kernel fails, the program's start ends:
  -- either `main` returns, with the sockets open that were so before, or its two threads run. Then
  -- one socket more is open, which is the engine's, the text that was compiled is that of
  -- bpf/ethernet-parse.c with its marks replaced by the settings of `main`, and the pipeline is at
  -- its first state, where the engine's buffer is empty and has room for a packet.
  pub main-Starts :
      (content read_address : List ℕ → List ℕ) (a : Arrays) (w : W)
      → IsArray a.own
      → (o : Outcome F W) × (main k content read_address a w ≡ some o)
        × Starts (sockets w) (filled_in read_address settings (content program_path)) o
  unfolding main with_engine
  main-Starts content read_address a w h =
      let e : BpfEngine = record {
        executor = record { bpf_prog = content program_path };
        socket = Socket.new;
      } in
      let (r, set_up, ready) = setup-IsReady law read_address settings (sockets w) e w refl in
      let (o, ended, starts) =
        after_setup-Starts (sockets w) (filled_in read_address settings (content program_path)) a r
          h ready in
      (
        o,
        ap (with_engine k read_address a w) (new_engine-content content)
            ∙ ap (after_setup k a) set_up
            ∙ ended,
        starts,
      )
