-- ===== src/Virtio/Tests.antt =====
-- Registers in memory, a machine with cells for fields, and the theorems on them.
use implus_os.Base.{
  ℕ, zero, suc, ◌+◌, ◌*◌, ◌%◌, ◌^◌, ◌≤◌, ◌<◌, ◌≡◌, ◌⊎◌, refl, true, false, if◌then◌else◌, ◌==◌,
  some, arith, update, replicate,
}
use implus_os.Allocator.{Allocator}
use implus_os.Display.{virtio_gpu_fill_rect}
use implus_os.Virtio.{Bars, GpuPci}
use implus_os.Virtio.Bus.{Platform, Transport, clear, common_read16}
use implus_os.Virtio.Queue.{
  Virtqueue, next_avail, publish, virtio_mmio_timeout, virtqueue_init_ctrl, virtqueue_submit_sync,
  init_ring, alloc_aligned, register_queue,
}
use implus_os.Virtio.Queue.Layout.{InBlock, virtqueue_init_ctrl-InBlock}
use implus_os.Virtio.Queue.Published.{Ram, Chain, publish-Chain}
use implus_os.Virtio.Queue.Waits.{after, is_unmoved, virtqueue_submit_sync_lem}
use implus_os.Virtio.Init.{Globals, reset, virtio_gpu_init}
use implus_os.Virtio.Init.Outcome.{Ended, screen, virtio_gpu_init_lem}
use implus_os.Pci.{Ports, pci_config_address}

-- The registers by address, and the address that was written last.
abbrev Space : Type 0
Space = (ℕ → ℕ) × ℕ

abbrev ports : Ports Space
ports = record {
  outl = λ d port value.
      if port == pci_config_address then (d.0, value) else (update d.0 d.1 value, d.1);
  inl = λ d port. (d.0 d.1 % 2 ^ 32, d);
}

abbrev space : Space
space = ((λ a. 0x00100007), 0)

-- The configuration space and the memory, a cell for each field that is stored.
abbrev Board : Type 0
Board = Space × (ℕ → ℕ)

abbrev store_cell : Board → (bytes addr value : ℕ) → Board
store_cell d bytes addr value = if bytes == 0 then d else (d.0, update d.1 addr value)

abbrev heap : Allocator Board
heap = record { kmalloc = λ d n. (2 ^ 20, d); kfree = λ d p. d }

abbrev board_ports : Ports Board
board_ports = record {
  outl = λ d port value. (ports.outl d.0 port value, d.1);
  inl = λ d port. ((ports.inl d.0 port).0, d);
}

abbrev platform : Platform Board
platform = record {
  ports = board_ports;
  load = λ d bytes addr. (d.1 addr, d);
  store = store_cell;
  heap = heap;
  map_mmio_virt = λ d phys. (phys, d);
}

-- A list of two capabilities, for the common registers and for notifications.
abbrev cap_word : ℕ → ℕ
cap_word a =
    if a == 0x04
    then 0x00100000
    else if a == 0x34
    then 0x40
    else if a == 0x40
    then 0x01105009
    else if a == 0x50
    then 0x02140009
    else if a == 0x58
    then 0x3000
    else if a == 0x60
    then 4
    else 0

abbrev board : Board
board = (((λ a. cap_word (a % 2 ^ 8)), 0), (λ a. 2))

abbrev gpu : GpuPci
gpu = record {
  bus = 0;
  device = 2;
  func = 0;
  bars = record { addr = replicate 6 0xfe000000; is_mem = replicate 6 1 };
  irq = 11;
}

abbrev transport : Transport
transport = record {
  common_cfg = 0xfe000000;
  notify_base = 0xfe003000;
  device_cfg = 0;
  notify_off_multiplier = 4;
}

-- A queue of two entries in the block.
abbrev queue : Virtqueue
queue = record {
  queue_index = 0;
  queue_size = 2;
  desc = 2 ^ 20;
  avail = 2 ^ 20 + 32;
  used = 2 ^ 20 + 44;
  avail_idx = 0;
  used_idx_seen = 0;
  notify_addr = 0xfe003008;
}

virtqueue_init_ctrl-InBlock_example : InBlock platform queue
unfolding virtqueue_init_ctrl init_ring alloc_aligned register_queue common_read16 clear
virtqueue_init_ctrl-InBlock_example =
    virtqueue_init_ctrl-InBlock platform transport 0 board queue (λ d n. omega arith) made
  where
    made : (virtqueue_init_ctrl platform transport 0 board).0 ≡ some queue
    made = refl

ram : Ram platform (2 ^ 20) (2 ^ 20 + 32 + 6 + 2 * 2)
ram = record {
  holds = λ d k a. if k == 0 then 0 else d.1 a;
  stored = λ d k a v lo hi fits. read_back d k a v fits;
  kept = λ d k a v k' a' lo hi apart. still d k a v k' a' apart;
}
  where
    read_back :
        (d : Board) (k a v : ℕ) → v < 256 ^ k → (if k == 0 then 0 else (store_cell d k a v).1 a) ≡ v
    read_back d zero a v fits = omega (arith, fits)
    read_back d (suc k) a v fits = ground arith

    still :
        (d : Board) (k a v k' a' : ℕ)
        → (a + k ≤ a') ⊎ (a' + k' ≤ a)
        → (if k' == 0 then 0 else (store_cell d k a v).1 a') ≡ (if k' == 0 then 0 else d.1 a')
    still d zero a v k' a' apart = refl
    still d (suc k) a v zero a' apart = refl
    still d (suc k) a v (suc k') a' apart = ground (arith, apart)

publish-Chain_example :
    Chain (ram.holds (publish platform queue 0x7000 24 0x7100 408 board)) queue 0x7000 24 0x7100 408
publish-Chain_example = publish-Chain platform queue 0x7000 24 0x7100 408 board ram (record {
  size = omega arith;
  behind_desc = omega arith;
  cmd_fits = omega arith;
  cmd_len_fits = omega arith;
  resp_fits = omega arith;
  resp_len_fits = omega arith;
})

abbrev sent : Virtqueue
sent = record queue { avail_idx = next_avail queue }

abbrev notified : Board
notified = store_cell (publish platform queue 0x7000 24 0x7100 408 board) 2 0xfe003008 0

virtqueue_submit_sync_lem_example :
    ((n : ℕ)
      → n < virtio_mmio_timeout
      → is_unmoved platform sent (after platform n sent notified) ≡ false
      → ((virtqueue_submit_sync platform queue 0x7000 24 0x7100 408 board).0 ≡ true)
        × ((virtqueue_submit_sync platform queue 0x7000 24 0x7100 408 board).1.0.avail_idx
            ≡ next_avail queue))
    × (((n : ℕ)
          → n < virtio_mmio_timeout
          → is_unmoved platform sent (after platform n sent notified) ≡ true)
        → ((virtqueue_submit_sync platform queue 0x7000 24 0x7100 408 board).0 ≡ false)
          × ((virtqueue_submit_sync platform queue 0x7000 24 0x7100 408 board).1.0 ≡ sent))
virtqueue_submit_sync_lem_example =
    virtqueue_submit_sync_lem platform queue 0x7000 24 0x7100 408 board (omega arith)

abbrev bars : Bars
bars = record { addr = replicate 6 0; is_mem = replicate 6 0 }

abbrev globals : Globals
globals = record { ready = true; width = 8; height = 8; fb = 64; controlq = queue }

virtio_gpu_init_lem_example :
    Ended platform (reset globals) (virtio_gpu_init platform 0x7000 0x7100 bars globals board)
    × ((pixel : ℕ → ℕ) (x y w h color j : ℕ)
        → let r = virtio_gpu_init platform 0x7000 0x7100 bars globals board in
          (r.0 ≡ false) ⊎ (r.1.0.height * r.1.0.width ≤ j)
          → (virtio_gpu_fill_rect (screen r.1.0 pixel) x y w h color).pixel j ≡ pixel j)
virtio_gpu_init_lem_example = virtio_gpu_init_lem platform 0x7000 0x7100 bars globals board
