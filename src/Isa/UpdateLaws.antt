-- ===== src/Isa/UpdateLaws.antt =====
-- Reading a field after another has been assigned.
use lightrec.Base.{ℕ, ◌^◌, ◌<◌, ◌≡◌, arith}
use lightrec.Isa.Fields.{Code, i_op, rs, rt, rd, r_imm, r_op, i_imm, m_op}
use lightrec.Isa.Update.{set_i_op, set_rs, set_rt, set_r_imm, set_r_op, set_m_op}

module _ (v : ℕ) (c : Code) where
  pub i_op-set_i_op : c < 2 ^ 32 → v < 64 → i_op (set_i_op v c) ≡ v
  unfolding i_op set_i_op
  i_op-set_i_op h lt = omega arith

  pub rs-set_i_op : rs (set_i_op v c) ≡ rs c
  unfolding rs set_i_op
  rs-set_i_op = omega arith

  pub rt-set_i_op : rt (set_i_op v c) ≡ rt c
  unfolding rt set_i_op
  rt-set_i_op = omega arith

  pub i_imm-set_i_op : i_imm (set_i_op v c) ≡ i_imm c
  unfolding i_imm set_i_op
  i_imm-set_i_op = omega arith

  pub i_op-set_rs : i_op (set_rs v c) ≡ i_op c
  unfolding i_op set_rs
  i_op-set_rs = omega arith

  pub rs-set_rs : v < 32 → rs (set_rs v c) ≡ v
  unfolding rs set_rs
  rs-set_rs lt = omega arith

  pub rt-set_rs : rt (set_rs v c) ≡ rt c
  unfolding rt set_rs
  rt-set_rs = omega arith

  pub i_imm-set_rs : i_imm (set_rs v c) ≡ i_imm c
  unfolding i_imm set_rs
  i_imm-set_rs = omega arith

  pub i_op-set_rt : i_op (set_rt v c) ≡ i_op c
  unfolding i_op set_rt
  i_op-set_rt = omega arith

  pub rs-set_rt : rs (set_rt v c) ≡ rs c
  unfolding rs set_rt
  rs-set_rt = omega arith

  pub rt-set_rt : v < 32 → rt (set_rt v c) ≡ v
  unfolding rt set_rt
  rt-set_rt lt = omega arith

  pub i_imm-set_rt : i_imm (set_rt v c) ≡ i_imm c
  unfolding i_imm set_rt
  i_imm-set_rt = omega arith

  pub rd-set_i_op : rd (set_i_op v c) ≡ rd c
  unfolding rd set_i_op
  rd-set_i_op = omega arith

  pub m_op-set_i_op : m_op (set_i_op v c) ≡ m_op c
  unfolding m_op set_i_op
  m_op-set_i_op = omega arith

  pub rd-set_rs : rd (set_rs v c) ≡ rd c
  unfolding rd set_rs
  rd-set_rs = omega arith

  pub m_op-set_rs : m_op (set_rs v c) ≡ m_op c
  unfolding m_op set_rs
  m_op-set_rs = omega arith

  pub i_op-set_m_op : i_op (set_m_op v c) ≡ i_op c
  unfolding i_op set_m_op
  i_op-set_m_op = omega arith

  pub rs-set_m_op : rs (set_m_op v c) ≡ rs c
  unfolding rs set_m_op
  rs-set_m_op = omega arith

  pub rt-set_m_op : rt (set_m_op v c) ≡ rt c
  unfolding rt set_m_op
  rt-set_m_op = omega arith

  pub rd-set_m_op : rd (set_m_op v c) ≡ rd c
  unfolding rd set_m_op
  rd-set_m_op = omega arith

  pub m_op-set_m_op : v < 32 → m_op (set_m_op v c) ≡ v
  unfolding m_op set_m_op
  m_op-set_m_op h0 = omega arith

  pub i_op-set_r_imm : i_op (set_r_imm v c) ≡ i_op c
  unfolding i_op set_r_imm
  i_op-set_r_imm = omega arith

  pub rt-set_r_imm : rt (set_r_imm v c) ≡ rt c
  unfolding rt set_r_imm
  rt-set_r_imm = omega arith

  pub rd-set_r_imm : rd (set_r_imm v c) ≡ rd c
  unfolding rd set_r_imm
  rd-set_r_imm = omega arith

  pub r_imm-set_r_imm : v < 32 → r_imm (set_r_imm v c) ≡ v
  unfolding r_imm set_r_imm
  r_imm-set_r_imm h0 = omega arith

  pub i_op-set_r_op : i_op (set_r_op v c) ≡ i_op c
  unfolding i_op set_r_op
  i_op-set_r_op = omega arith

  pub rt-set_r_op : rt (set_r_op v c) ≡ rt c
  unfolding rt set_r_op
  rt-set_r_op = omega arith

  pub rd-set_r_op : rd (set_r_op v c) ≡ rd c
  unfolding rd set_r_op
  rd-set_r_op = omega arith

  pub r_imm-set_r_op : r_imm (set_r_op v c) ≡ r_imm c
  unfolding r_imm set_r_op
  r_imm-set_r_op = omega arith

  pub rs-set_r_op : rs (set_r_op v c) ≡ rs c
  unfolding rs set_r_op
  rs-set_r_op = omega arith

  pub r_imm-set_i_op : r_imm (set_i_op v c) ≡ r_imm c
  unfolding r_imm set_i_op
  r_imm-set_i_op = omega arith

  pub r_op-set_r_op : v < 64 → r_op (set_r_op v c) ≡ v
  unfolding r_op set_r_op
  r_op-set_r_op h0 = omega arith

  pub set_r_op-lt : c < 2 ^ 32 → set_r_op v c < 2 ^ 32
  unfolding set_r_op
  set_r_op-lt h = omega arith

  pub set_r_imm-lt : c < 2 ^ 32 → set_r_imm v c < 2 ^ 32
  unfolding set_r_imm
  set_r_imm-lt h = omega arith

  pub set_rs-lt : c < 2 ^ 32 → set_rs v c < 2 ^ 32
  unfolding set_rs
  set_rs-lt h = omega arith

  pub set_m_op-lt : c < 2 ^ 32 → set_m_op v c < 2 ^ 32
  unfolding set_m_op
  set_m_op-lt h = omega arith

  pub set_i_op-lt : c < 2 ^ 32 → v < 64 → set_i_op v c < 2 ^ 32
  unfolding set_i_op
  set_i_op-lt h lt = omega arith
