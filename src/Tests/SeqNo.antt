-- ===== src/Tests/SeqNo.antt =====
-- The round trip of the sequence number at an id and a request number.
use jumpbox.Base.{◌≡◌, ◌<◌, ◌↔◌, some}
use jumpbox.SeqNo.{print_seqno, scan_seqno}
use jumpbox.SeqNo.RoundTrip.{limit, scan_seqno-print_seqno}

scan_seqno-print_seqno_example :
    (scan_seqno (print_seqno 4711 3) ≡ some (4711, 3)) ↔ ((4711 < limit) × (3 < limit))
scan_seqno-print_seqno_example = scan_seqno-print_seqno 4711 3
