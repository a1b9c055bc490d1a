-- ===== src/FileRef/Sampling.antt =====
-- What the sampled hash of a file can tell apart.
use tdcs.Prelude.{ℕ, ◌≤◌, ◌≡◌, String, List, arith}
use tdcs.FileRef.{StatResult, Hashing, read_head, sample, from_stat}

-- For a size of up to 8192 bytes the file reference depends on the first 4096 bytes and the stat
-- alone: contents that differ only behind the first 4096 bytes get the same reference.
pub from_stat-eq_of_head :
    (h : Hashing) (task_id file_path : String) (c d : List ℕ) (stat : StatResult)
    → stat.st_size ≤ 8192
    → read_head c ≡ read_head d
    → from_stat h task_id file_path c stat ≡ from_stat h task_id file_path d stat
unfolding from_stat sample
from_stat-eq_of_head h tid path c d stat small same = ground arith
