-- ===== src/Netstack/Queues.antt =====
-- The device hands on the packets in both directions in order and without loss.
use mathlib.Core.List.{append_assoc, append-nil}
use medium.Common.{ℕ, ◌≡◌, refl, sym, ap, ◌∙◌, List, [], ◌∷◌, ◌++◌, Option, none, some, Bytes}
use medium.Netstack.Device.{
  PacketDevice, front, behind, push_tun_packet, pop_tun_packet, receive, zeros, transmit_packet,
}

-- A use of the device: by the tunnel, which pushes and pops, and by the stack, which receives and
-- transmits.
pub data Use : Type 0 where
  pushes : Bytes → Use
  pops receives : Use
  transmits : ℕ → (Bytes → Bytes) → Use

unfoldable pub use_device : Use → PacketDevice → PacketDevice
use_device (pushes packet) d = push_tun_packet packet d
use_device pops d = (pop_tun_packet d).1
use_device receives d = (receive d).1
use_device (transmits len fill) d = transmit_packet len fill d

unfoldable pub use_all : List Use → PacketDevice → PacketDevice
use_all [] d = d
use_all (u ∷ us) d = use_all us (use_device u d)

abbrev pub listed : Option Bytes → List Bytes
listed none = []
listed (some p) = p ∷ []

-- The packets that the tunnel pushes, and those that the stack receives.
unfoldable pub pushed : List Use → List Bytes
pushed [] = []
pushed (pushes packet ∷ us) = packet ∷ pushed us
pushed (_ ∷ us) = pushed us

unfoldable pub received : List Use → PacketDevice → List Bytes
received [] d = []
received (receives ∷ us) d = listed (receive d).0 ++ received us (use_device receives d)
received (u ∷ us) d = received us (use_device u d)

-- The packets that the stack transmits, and those that the tunnel pops.
unfoldable pub transmitted : List Use → List Bytes
transmitted [] = []
transmitted (transmits len fill ∷ us) = fill (zeros len) ∷ transmitted us
transmitted (_ ∷ us) = transmitted us

unfoldable pub popped : List Use → PacketDevice → List Bytes
popped [] d = []
popped (pops ∷ us) d = listed (pop_tun_packet d).0 ++ popped us (use_device pops d)
popped (u ∷ us) d = popped us (use_device u d)

front-behind : (ps : List Bytes) → listed (front ps) ++ behind ps ≡ ps
front-behind [] = refl
front-behind (p ∷ ps) = refl

taken :
    (ps news rest : List Bytes) → rest ≡ behind ps ++ news → listed (front ps) ++ rest ≡ ps ++ news
taken ps news rest e =
    ap (λ l. listed (front ps) ++ l) e
    ∙ sym (append_assoc (listed (front ps)) (behind ps) news)
    ∙ ap (λ l. l ++ news) (front-behind ps)

received-pushed :
    (us : List Use) (d : PacketDevice) → received us d ++ (use_all us d).rx ≡ d.rx ++ pushed us
unfolding received use_all pushed use_device push_tun_packet pop_tun_packet receive transmit_packet
received-pushed [] d = sym (append-nil d.rx)
received-pushed (pushes packet ∷ us) d =
    received-pushed us (push_tun_packet packet d) ∙ append_assoc d.rx (packet ∷ []) (pushed us)
received-pushed (pops ∷ us) d = received-pushed us (pop_tun_packet d).1
received-pushed (transmits len fill ∷ us) d = received-pushed us (transmit_packet len fill d)
received-pushed (receives ∷ us) d =
    append_assoc (listed (front d.rx)) (received us (receive d).1) (use_all us (receive d).1).rx
    ∙ taken d.rx (pushed us) _ (received-pushed us (receive d).1)

popped-transmitted :
    (us : List Use) (d : PacketDevice) → popped us d ++ (use_all us d).tx ≡ d.tx ++ transmitted us
unfolding popped use_all transmitted use_device push_tun_packet pop_tun_packet receive
    transmit_packet
popped-transmitted [] d = sym (append-nil d.tx)
popped-transmitted (transmits len fill ∷ us) d =
    popped-transmitted us (transmit_packet len fill d)
    ∙ append_assoc d.tx (fill (zeros len) ∷ []) (transmitted us)
popped-transmitted (pushes packet ∷ us) d = popped-transmitted us (push_tun_packet packet d)
popped-transmitted (receives ∷ us) d = popped-transmitted us (receive d).1
popped-transmitted (pops ∷ us) d =
    append_assoc (listed (front d.tx)) (popped us (pop_tun_packet d).1)
      (use_all us (pop_tun_packet d).1).tx
    ∙ taken d.tx (transmitted us) _ (popped-transmitted us (pop_tun_packet d).1)

-- However the tunnel and the stack take turns: what the stack receives, and after it what waits for
-- it, is what waited before and then what the tunnel pushed, in order; and so for what the stack
-- transmits and the tunnel pops.
pub use_all_in_order :
    (us : List Use) (d : PacketDevice)
    → (received us d ++ (use_all us d).rx ≡ d.rx ++ pushed us)
      × (popped us d ++ (use_all us d).tx ≡ d.tx ++ transmitted us)
use_all_in_order us d = (received-pushed us d, popped-transmitted us d)
