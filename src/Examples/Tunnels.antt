-- ===== src/Examples/Tunnels.antt =====
-- The tunnel of a WebSocket at a run in which the server closes its side.
use mitm_proxy.Base.{◌+◌, ◌*◌, ◌≤◌, ◌≡◌, refl, ◌⊎◌, inl, true, false, [], ◌∷◌, IsPrefix, length}
use mitm_proxy.Text.{bytes}
use mitm_proxy.Refactor.Tunnel.{
  Source, half, reading, holding, Half, Tunnel, read_chunk, write_chunk, copy_down, Steps, here,
  next, start,
}
use mitm_proxy.Refactor.Tunnel.Ends.{Moves, start_ends}
use mitm_proxy.Refactor.Tunnel.Delivers.{start_delivers}

abbrev server : Source
server = record {
  held = bytes "welcome" ∷ [];
  chunks = bytes "hi" ∷ [];
  ends = true;
  blocks = false;
}

abbrev client : Source
client = record { held = []; chunks = bytes "hello" ∷ []; ends = false; blocks = true }

abbrev passed : Half
passed = record { stage = reading; input = []; ends = true; blocks = false; output = server.chunks }

abbrev later : Tunnel
later = record {
  down = passed;
  up = record { stage = reading; input = client.chunks; ends = false; blocks = true; output = [] };
  connected = true;
  once = false;
  wait = 2;
  returned = false;
}

abbrev chunk_read : Tunnel
chunk_read = record later {
  down = record {
    stage = holding (bytes "hi");
    input = [];
    ends = true;
    blocks = false;
    output = [];
  };
}

run : Steps (start server client) 2 later
unfolding start half
run =
    next
      (next here (copy_down chunk_read.down (read_chunk (bytes "hi") [] refl refl refl refl) refl))
      (copy_down passed (write_chunk (bytes "hi") refl refl refl) refl)

start_ends_example :
    (2 ≤ 2 * length server.chunks + 2 * length client.chunks + 7) × ((false ≡ true) ⊎ Moves later)
start_ends_example = start_ends server client (inl (refl, refl)) run

-- The bytes that the server sent with its response are not among those written.
start_delivers_example : IsPrefix (bytes "hi" ∷ []) server.chunks × IsPrefix [] client.chunks
start_delivers_example = start_delivers server client run
