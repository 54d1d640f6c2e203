-- ===== src/Capture.antt =====
-- The way of a frame from the wire to the handler: the socket that `BPFEngine::setup`
-- (include/iec_core/engines/bpf_engine.h) attaches bpf/ethernet-parse.c to gives what this program
-- keeps to the loop of `BPFEngine::run`.
pub mod Wanted
mod Tests
use bpf_program.Base.{
  ℕ, Bool, true, false, ◌&&◌, ◌||◌, ◌==◌, not, Option, none, some, List, [], ◌∷◌, ◌++◌,
  if◌then◌else◌,
}
use bpf_program.Bytes.{of_be}
use bpf_program.Parser.Encode.{Sample, Frame, encode_frame}
use bpf_program.Filter.{Load, Ethernet, Settings, iec_proto, sv_ethertype, iec61850_filter}
use bpf_program.NativeFilter.{same_text}

-- A frame of one ASDU, with its Ethernet header in parts.
pub record Telegram : Type 0 where
  pub dst : List ℕ
  pub src : List ℕ
  pub kind : List ℕ
  pub app_id : ℕ
  pub res1 : ℕ
  pub res2 : ℕ
  pub sample : Sample

abbrev pub frame_of : Telegram → Frame
frame_of t = record {
  ether_header = t.dst ++ (t.src ++ t.kind);
  app_id = t.app_id;
  res1 = t.res1;
  res2 = t.res2;
  samples = t.sample ∷ [];
}

-- The kernel drops the packet for which the program returns 0, or ends by a load outside of it.
abbrev pub is_kept : Option Bool → Bool
is_kept (some kept) = kept
is_kept none = false

-- What the socket has of what was on the wire in a round.
unfoldable pub captured : Load → Ethernet → Settings → Option Telegram → Option Frame
captured load ethernet settings none = none
captured load ethernet settings (some t) =
    if is_kept (iec61850_filter load ethernet settings (encode_frame (frame_of t)))
    then some (frame_of t)
    else none

-- The settings ask for this telegram.
abbrev pub is_wanted : Settings → Telegram → Bool
is_wanted settings t =
    ((of_be t.kind == iec_proto || of_be t.kind == sv_ethertype)
      && (not (settings.iface_mac == of_be t.src) && settings.src_mac == of_be t.src))
    && same_text settings.sv_id t.sample.sv_id

abbrev pub wanted : Settings → Option Telegram → Option Frame
wanted settings none = none
wanted settings (some t) = if is_wanted settings t then some (frame_of t) else none
